-- ===== src/Lib.antt =====
-- A verification library for ovnflow, a Go SDK for OVN and Open vSwitch. It models the parts of
-- the SDK that compute by themselves, with no connection to a database, a switch or a kernel, and
-- proves what makes them correct.
--
-- Parts and files (Go paths are relative to the repository's root):
-- * Errors is errors.go: the kinds of error, `wrap`, and Go's (value, error) pair as `Result`.
--   Util is what the parts call of util.go, with Go's string-keyed maps (Util/Dict); Owner is
--   ownership.go: the checks of owners and labels, and in Owner/ExternalIds the external ids that
--   record them, with the base64 of their keys in Text/Base64.
-- * Ipam is ipam.go. Ipam/Range has the uint32 arithmetic, the range of a prefix and
--   `mergeRanges`; Ipam/State has `ipamState` with `IPAMPool.state` (`pool_state`),
--   `nextAvailable`, `ensureAvailable`, `isAvailable` and `available`; Ipam/Pool has the exported
--   operations `PlanIPAllocation`, `Allocate`, `Release`, `Contains`, `Available` and `Overlaps`.
--   Proofs stand in the modules below these.
-- * Sdwan is sdwan.go and sdwan_agent.go. Sdwan/Types has the records and the tests on their
--   string fields; Sdwan/Validate the `Validate` methods; Sdwan/Normalize the normal form with
--   the links of a full mesh and of hubs and spokes; Sdwan/Plan is `planSDWANApply`; Sdwan/Store
--   the interface `SDWANBackend` and `InMemorySDWANBackend`; Sdwan/Equal is `reflect.DeepEqual`
--   of networks; Sdwan/Builder the builders' `Plan`, `DryRun`, `Reconcile` and `Execute`, over
--   any backend; Sdwan/Agent and Sdwan/Control are `InMemorySDWANControlPlane`, with its calls as
--   a step relation in Sdwan/Control/Steps. A network of Sdwan has CIDRs that Ipam's
--   `parseIPv4Prefix` checks.
-- * OpenFlow is openflow_protocol.go: OpenFlow/Bytes has big-endian integers and padding,
--   OpenFlow/Message framing, hello, features, errors, multipart replies and the choice of a
--   version; OpenFlow/Oxm one field of a match, with the texts of addresses; OpenFlow/Match
--   `marshalOpenFlowMatch` and `ParseOpenFlowMatch`; OpenFlow/FlowMod actions, instructions, flow
--   modifications and requests for statistics; OpenFlow/Mac the calls of Go's net on MAC
--   addresses. OpenFlow/Hello and OpenFlow/Session are the sessions of openflow_client.go: the
--   versions in a hello and the choice among them, `Handshake`, flow modifications and
--   `DumpFlows`. OpenFlow/Intent is the flow builder of openflow_intent.go, over any way to
--   configure a controller and to open a session.
-- * Router is linuxrouter/router.go: Router/Types has the records, Router/Names the names of
--   rules and the checks of single fields, Router/Validate the `Validate` methods, Router/Render
--   `inferNATInterfaces` and the command renderer, Router/Patch patches, Router/Status the hash
--   of an observed status, and Router/Client the client: `refreshStoredStatus`, `Get`, `Apply`
--   and `Patch` over any executor, renderer, observer and port manager, with the calls as a step
--   relation in Router/Client/Reachable.
-- * Netip is what ipam.go, openflow_protocol.go and linuxrouter/router.go call of Go's net and
--   net/netip, byte by byte; Text is Go strings as lists of bytes; Base is shared helpers.
-- * Tests has runs of the code and the theorems at concrete inputs.
--
-- Conventions: a machine integer is a number with its wrap-around written out; a counter that
-- starts at 0, is set by no caller and grows by one a call is a number without a bound. A Go
-- function that returns (value, error) returns a `Result`; a receiver that may be nil is an
-- `Option`; a method that changes its receiver or a store returns the new value, and a method
-- under a lock is one step. A Go slice or set is a list, and a slice that is copied is the same
-- list; a map with string keys has its entries in the order of the keys, and a nil map or slice
-- is the empty one. `sort.Slice` is a stable insertion sort, which is what Go runs on at most
-- twelve elements. An `int` has 64 bits. A reader or writer is the bytes to come or written. A Go
-- `int` that may be negative is an integer of Util/Int, and `add_int` adds to it with the
-- wrap-around of 64 bits, as of `LastApplied`, which a caller may set. A slice that is shared
-- with the caller and written in place is returned with the result, as in Router/Render. A time
-- is a number, 0 the zero time, and a reading of the clock is an argument.
--
-- Fuel: the scan of `nextAvailable` takes one round for each address of the usable range and one
-- more; the loop of `ParseOpenFlowMatch` takes a round for each byte, and each reads four bytes
-- at least, and so does that of `parseHelloVersions`; the loop of `DumpFlows` takes a round for
-- each byte to come and one more, and each reads eight bytes at least (OpenFlow/Session/Dump);
-- the parser of IPv6 texts takes nine rounds, and each reads one of at most eight groups; a
-- 64-bit number has at most twenty decimal and sixteen hexadecimal digits. All else is structural
-- recursion.
--
-- Not modelled: everything that talks to OVSDB, to OVS or to the kernel (the NB, SB and OVS
-- builders, watches, the Linux backends), dialing, deadlines and contexts that end, the text of
-- wrapped foreign errors, encoding/json (an argument of Router/Status), the lower case of letters
-- beyond ASCII in names of rules and of flows, and what a patch that is applied leaves in the
-- slices of its caller. Maps are walked in the order of their keys, or against it (`add_labels`),
-- where Go takes any.
pub mod Base
pub mod Text
pub mod Errors
pub mod Netip
pub mod Ipam
pub mod OpenFlow
pub mod Util
pub mod Owner
pub mod Sdwan
pub mod Router
mod Tests

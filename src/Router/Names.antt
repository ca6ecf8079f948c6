-- ===== src/Router/Names.antt =====
-- linuxrouter/router.go: names of rules, and the checks of single fields.
use ovnflow.Base.{
  ℕ, Bool, true, false, ◌&&◌, ◌||◌, not, List, [], ◌∷◌, ◌++◌, map, any, String, leb, ◌==◌,
  if◌then◌else◌,
}
use ovnflow.Text.{Text, codes, text_eq, is_blank, is_empty, has_prefix}
use ovnflow.Text.Trim.{trim_space, to_lower}
use ovnflow.Errors.{validation, Error, wrap, Result, ok, ◌>>◌, fail_if}
use ovnflow.Util.{contains_string}
use ovnflow.Util.Dict.{Dict}
use ovnflow.Util.Int.{ℤ, pos, negsuc, int_text}
use ovnflow.Router.Types.{SnatRule, MasqueradeRule, DnatRule, PortForwardRule, DestinationMapRule}

-- `kind + ":" + object`.
abbrev pub named : String → Text → Text
named kind object = codes kind ++ (b':' ∷ object)

unfoldable pub wrap_validation : String → Text → String → Bool → Error
wrap_validation kind object message caused =
    wrap validation "" "validate" (named kind object) message caused

unfoldable pub validate_name : String → Text → Result (Unit {0})
unfolding wrap_validation
validate_name kind name =
    fail_if (is_blank name) (wrap_validation kind name "name must not be empty" false)

-- The names met so far grow by the name.
unfoldable pub validate_rule_name : Text → List Text → Result (List Text)
unfolding validate_name wrap_validation
validate_rule_name name names = do
  validate_name "rule" name
  fail_if (contains_string names name)
      (wrap_validation "rule" name "duplicate stable rule name" false)
  ok (name ∷ names)

-- The keys are taken in their order; Go takes them in any.
unfoldable pub validate_external_ids : String → Text → Dict Text → Result (Unit {0})
unfolding wrap_validation
validate_external_ids kind name [] = ok tt
validate_external_ids kind name (entry ∷ values) = do
  fail_if (is_blank entry.0) (wrap_validation kind name "external id key must not be empty" false)
  fail_if (is_blank entry.1) (wrap_validation kind name "external id value must not be empty" false)
  fail_if (has_prefix entry.0 (codes "ovnflow.io/"))
      (wrap_validation kind name "external id key uses reserved ovnflow.io/ prefix" false)
  validate_external_ids kind name values

unfoldable pub valid_port : ℤ → Bool
valid_port (pos n) = leb 1 n && leb n 65535
valid_port (negsuc n) = false

-- One of " \t\r\n".
abbrev is_gap : ℕ → Bool
is_gap c = c == b' ' || c == 0x09 || c == 0x0d || c == 0x0a

unfoldable pub valid_dnsmasq_server : Text → Bool
valid_dnsmasq_server server =
    let trimmed = trim_space server in not (is_empty trimmed) && not (any is_gap trimmed)

unfoldable pub is_one_of : Text → List String → Bool
is_one_of value allowed =
    let folded = to_lower (trim_space value) in
    any (λ candidate. text_eq folded (codes candidate)) allowed

-- `strings.Join(parts, "-")`.
unfoldable pub join : List Text → Text
join [] = []
join (part ∷ []) = part
join (part ∷ next ∷ parts) = part ++ (b'-' ∷ join (next ∷ parts))

-- The replacer of `stableRuleName`.
abbrev dashed : ℕ → ℕ
dashed c = if c == b'/' || c == b':' || c == b'.' || c == b' ' || c == b'_' then b'-' else c

-- `strings.Trim(s, "-")`.
abbrev all_dashes : Text → Bool
all_dashes [] = true
all_dashes (c ∷ s) = c == b'-' && all_dashes s

unfoldable pub drop_dashes : Text → Text
drop_dashes [] = []
drop_dashes (c ∷ s) = let rest = drop_dashes s in if c == b'-' then rest else c ∷ s

unfoldable pub cut_dashes : Text → Text
cut_dashes [] = []
cut_dashes (c ∷ s) = let rest = cut_dashes s in if all_dashes (c ∷ s) then [] else c ∷ rest

unfoldable pub stable_rule_name : List Text → Text
unfolding join drop_dashes cut_dashes
stable_rule_name parts = cut_dashes (drop_dashes (map dashed (to_lower (join parts))))

-- The name, or the one that is made of the fields.
abbrev or_stable : Text → List Text → Text
or_stable [] parts = stable_rule_name parts
or_stable (c ∷ name) parts = c ∷ name

unfoldable pub snat_name : SnatRule → Text
snat_name r = or_stable r.name (codes "snat" ∷ r.source_cidr ∷ r.out_interface ∷ r.to_source ∷ [])

unfoldable pub masquerade_name : MasqueradeRule → Text
masquerade_name r = or_stable r.name (codes "masquerade" ∷ r.source_cidr ∷ r.out_interface ∷ [])

unfoldable pub dnat_name : DnatRule → Text
dnat_name r =
    or_stable r.name (codes "dnat" ∷ r.match_address ∷ r.target_address ∷ r.in_interface ∷ [])

unfoldable pub port_forward_name : PortForwardRule → Text
port_forward_name r = or_stable r.name (
    codes "port-forward"
    ∷ r.protocol
    ∷ r.in_interface
    ∷ r.listen_ip
    ∷ int_text r.listen_port
    ∷ r.target_ip
    ∷ int_text r.target_port
    ∷ [])

unfoldable pub destination_map_name : DestinationMapRule → Text
destination_map_name r = or_stable r.name (
    codes "destination-map"
    ∷ r.match_address
    ∷ r.target_address
    ∷ r.from_cidr
    ∷ r.in_interface
    ∷ r.out_interface
    ∷ r.source_nat
    ∷ [])

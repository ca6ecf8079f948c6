-- ===== src/Util/Fnv.antt =====
-- hash/fnv: the hash that linuxrouter/router.go and openflow_intent.go call.
use Prim.Native.Nat.{bit_xor}
use ovnflow.Base.{ℕ, ◌*◌, ◌%◌, ◌^◌, List, [], ◌∷◌}

-- FNV-1a of 64 bits.
unfoldable pub fnv_loop : ℕ → List ℕ → ℕ
fnv_loop hash [] = hash
fnv_loop hash (b ∷ bytes) = fnv_loop (bit_xor hash b * 1099511628211 % 2 ^ 64) bytes

unfoldable pub fnv_hash : List ℕ → ℕ
unfolding fnv_loop
fnv_hash bytes = fnv_loop 14695981039346656037 bytes

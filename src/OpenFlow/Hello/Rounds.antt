-- ===== src/OpenFlow/Hello/Rounds.antt =====
-- openflow_client.go: the rounds of the loop of `parseHelloVersions`.
use ovnflow.Base.{ℕ, zero, suc, ◌+◌, ◌-◌, ◌≤◌, ◌≡◌, refl, ap, ◌&&◌, List, [], ◌∷◌, ◌++◌, arith}
use ovnflow.Base.{length, length-drop, take, drop, ltb, leb, ◌==◌, if◌then◌else◌, ◌||◌}
use ovnflow.OpenFlow.Bytes.{Bytes, get16}
use ovnflow.OpenFlow.Hello.{bitmap_versions, hello_elements}

-- With a round for each byte at least, the number of rounds does not matter.
pub hello_elements_enough :
    (m n : ℕ) (out : List ℕ) (body : Bytes)
    → length body ≤ m
    → length body ≤ n
    → hello_elements m out body ≡ hello_elements n out body
unfolding hello_elements
hello_elements_enough zero zero out body h k = refl
hello_elements_enough zero (suc n) out [] h k = refl
hello_elements_enough zero (suc n) out (a ∷ body) h k = absurd (omega arith)
hello_elements_enough (suc m) zero out [] h k = refl
hello_elements_enough (suc m) zero out (a ∷ body) h k = absurd (omega arith)
hello_elements_enough (suc m) (suc n) out [] h k = refl
hello_elements_enough (suc m) (suc n) out (a ∷ []) h k = refl
hello_elements_enough (suc m) (suc n) out (a ∷ b ∷ []) h k = refl
hello_elements_enough (suc m) (suc n) out (a ∷ b ∷ c ∷ []) h k = refl
hello_elements_enough (suc m) (suc n) out (a ∷ b ∷ c ∷ d ∷ rest) h k =
    let size = get16 c d in
    let found =
      if get16 a b == 1 && leb 8 size then bitmap_versions (take (size - 4) rest) else [] in
    let shorter = length-drop (size - 4) rest in
    ap (λ (more : List ℕ). if ltb size 4 || ltb (4 + length rest) size then [] else more)
      (hello_elements_enough m n (out ++ found) (drop (size - 4) rest) (omega (arith, shorter))
        (omega (arith, shorter)))

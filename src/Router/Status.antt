-- ===== src/Router/Status.antt =====
-- linuxrouter/router.go: `normalizeObservedStatus`. What encoding/json makes of a status is an
-- argument, and `none` an error of it.
use ovnflow.Base.{
  ℕ, zero, suc, ◌+◌, ◌-◌, ◌/◌, ◌%◌, List, [], ◌∷◌, ◌++◌, Option, none, some, ltb, if◌then◌else◌,
}
use ovnflow.Base.Sort.{sort_by}
use ovnflow.Text.{Text, text_lt, is_empty}
use ovnflow.Text.Trim.{trim_space}
use ovnflow.Util.{contains_string}
use ovnflow.Router.Types.{Status}
use ovnflow.Util.Fnv.{fnv_hash}

-- The loop of `uniqueSortedStrings`; `seen` is what was taken before.
unfoldable pub trimmed_loop : List Text → List Text → List Text
unfolding trim_space
trimmed_loop seen [] = []
trimmed_loop seen (value ∷ values) =
    let trimmed = trim_space value in
    let skipped = trimmed_loop seen values in
    let taken = trimmed_loop (trimmed ∷ seen) values in
    if is_empty trimmed
    then skipped
    else if contains_string seen trimmed
    then skipped
    else trimmed ∷ taken

unfoldable pub unique_sorted_strings : List Text → List Text
unique_sorted_strings values = sort_by text_lt (trimmed_loop [] values)

abbrev hex_digit : ℕ → ℕ
hex_digit n = if ltb n 10 then b'0' + n else b'a' + (n - 10)

-- `%x`: of 64 bits there are sixteen digits at most.
unfoldable pub hex_digits : ℕ → ℕ → Text
hex_digits zero n = []
hex_digits (suc more) n =
    let front = hex_digits more (n / 16) in
    if ltb n 16 then hex_digit n ∷ [] else front ++ (hex_digit (n % 16) ∷ [])

abbrev hash_text : Option (List ℕ) → Text
hash_text none = []
hash_text (some bytes) = hex_digits 16 (fnv_hash bytes)

module _ (json : Status → Option (List ℕ)) where
  unfoldable pub observed_hash : Status → Text
  unfolding fnv_hash hex_digits
  observed_hash status =
      hash_text
        (json (record status { resource_version = []; observed_hash = []; last_error = [] }))

  unfoldable pub normalize_observed_status : Status → Status
  unfolding observed_hash unique_sorted_strings
  normalize_observed_status status =
      let unique : Status = record status {
        installed_nat = unique_sorted_strings status.installed_nat;
        installed_firewall = unique_sorted_strings status.installed_firewall;
      } in
      let hash = observed_hash unique in
      record unique {
        observed_hash = hash;
        resource_version =
            if is_empty status.resource_version then hash else status.resource_version;
      }

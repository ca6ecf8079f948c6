-- ===== src/Util.antt =====
-- util.go: names, single use of a builder, and string slices; Go maps with string keys.
use ovnflow.Base.{Bool, true, false, List, [], ◌∷◌, ◌++◌, any, String, Option, none, some}
use ovnflow.Base.{if◌then◌else◌}
use ovnflow.Text.{Text, codes, text_eq, text_lt, is_empty, is_blank}
use ovnflow.Errors.{ErrorKind, validation, Error, wrap, Result, fail_if}
pub mod Dict
pub mod Unique
pub mod Equal
pub mod Int
pub mod Fnv

-- The calls of `wrap` that name an object and no table.
abbrev pub wrapped : ErrorKind → String → Text → String → Error
wrapped kind op object message = wrap kind "" op object message false

unfoldable pub validate_name : String → Text → Result (Unit {0})
validate_name kind name =
    fail_if (is_blank name) (wrapped validation "validate" (codes kind) "name must not be empty")

-- `useOnce.mark`: whether the builder may still be used, and the flag behind the call.
unfoldable pub mark : Bool → Bool × Bool
mark true = (false, true)
mark false = (true, true)

unfoldable pub contains_string : List Text → Text → Bool
contains_string values want = any (λ value. text_eq value want) values

-- The loop of `uniqueStrings`; `seen` is what `out` has so far.
unfoldable pub unique_loop : List Text → List Text → List Text
unique_loop seen [] = []
unique_loop seen (value ∷ values) =
    let skipped = unique_loop seen values in
    let taken = unique_loop (value ∷ seen) values in
    if is_empty value
    then skipped
    else if contains_string seen value
    then skipped
    else value ∷ taken

unfoldable pub unique_strings : List Text → List Text
unique_strings values = unique_loop [] values

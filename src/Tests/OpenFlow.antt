-- ===== src/Tests/OpenFlow.antt =====
-- openflow_protocol.go: the cases of openflow_protocol_test.go, and the theorems at them.
use ovnflow.Base.{ℕ, ◌≡◌, refl, [], ◌∷◌, ◌++◌, some, arith}
use ovnflow.Base.Sort.{sort_by}
use ovnflow.Errors.{ok}
use ovnflow.OpenFlow.Bytes.{Bytes}
use ovnflow.OpenFlow.Message.{
  Message, validate_version, marshal_message, read_message, message, write_message, hello_bitmap,
  hello_message, distinct_versions, normalize_versions, highest_version, highest_from,
}
use ovnflow.OpenFlow.Message.Framing.{
  write_all, read_all, read_message-marshal_message, read_all-write_all,
}
use ovnflow.OpenFlow.Message.Versions.{has, chosen, normalize_versions-chosen}

-- An echo request of version 1.3 with three bytes, and the request for features of version 1.5.
abbrev echo : Message
echo = record { version = 4; kind = 2; xid = 258; body = 1 ∷ 2 ∷ 3 ∷ [] }

abbrev features : Message
features = record { version = 6; kind = 5; xid = 7; body = [] }

abbrev echo_bytes : Bytes
echo_bytes = 4 ∷ 2 ∷ 0 ∷ 11 ∷ 0 ∷ 0 ∷ 1 ∷ 2 ∷ 1 ∷ 2 ∷ 3 ∷ []

abbrev features_bytes : Bytes
features_bytes = 6 ∷ 5 ∷ 0 ∷ 8 ∷ 0 ∷ 0 ∷ 0 ∷ 7 ∷ []

run : ℕ
unfolding validate_version marshal_message write_message write_all hello_bitmap hello_message
    distinct_versions normalize_versions highest_version highest_from sort_by
run = 0

marshal_echo : marshal_message echo ≡ ok echo_bytes
unfolding run
marshal_echo = refl

normalize_default : normalize_versions (4 ∷ 6 ∷ 4 ∷ []) ≡ ok (6 ∷ 4 ∷ [])
unfolding run
normalize_default = refl

read_again : read_message (echo_bytes ++ features_bytes) ≡ message echo features_bytes
read_again = read_message-marshal_message echo echo_bytes features_bytes (omega arith) marshal_echo

write_both : write_all [] (echo ∷ features ∷ []) ≡ ok (echo_bytes ++ features_bytes)
unfolding run
write_both = refl

read_all-write_all_example :
    read_all 2 ((echo_bytes ++ features_bytes) ++ (0 ∷ [])) ≡ some (echo ∷ features ∷ [], 0 ∷ [])
read_all-write_all_example =
    read_all-write_all (echo ∷ features ∷ []) (echo_bytes ++ features_bytes) (0 ∷ [])
      (omega arith, (omega arith, tt)) write_both

bitmap_both : hello_bitmap 0 (6 ∷ 4 ∷ 6 ∷ []) ≡ ok 80
unfolding run
bitmap_both = refl

normalize_versions-chosen_example :
    (6 ∷ 4 ∷ []) ≡ chosen (has 4 (4 ∷ 6 ∷ 4 ∷ [])) (has 6 (4 ∷ 6 ∷ 4 ∷ []))
normalize_versions-chosen_example =
    normalize_versions-chosen (4 ∷ 6 ∷ 4 ∷ []) (6 ∷ 4 ∷ []) normalize_default

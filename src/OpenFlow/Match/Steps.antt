-- ===== src/OpenFlow/Match/Steps.antt =====
-- openflow_protocol.go: the rounds of `ParseOpenFlowMatch` that read the numbers of a match, and what
-- `applyOXM` does with an address.
use ovnflow.Base.{ℕ, ◌+◌, ◌*◌, ◌^◌, ◌<◌, ◌≡◌, refl, ap, ◌∙◌, arith}
use ovnflow.Base.{Option, none, some, List, [], ◌++◌, length}
use ovnflow.Base.{eq→==}
use ovnflow.Errors.{ok}
use ovnflow.OpenFlow.Bytes.{Bytes, be16, be32, get_be}
use ovnflow.Text.{Text}
use ovnflow.OpenFlow.Mac.{mac_string}
use ovnflow.OpenFlow.Oxm.{format_ipv4}
use ovnflow.OpenFlow.Match.{Match, byte, number_field, apply_oxm}
use ovnflow.OpenFlow.Match.Fields.{Field, Field-append, Below, number-Field}

-- A field of 16 bits.
pub be16-Field :
    (field : ℕ) (m : Match) (after : Option ℕ → Match) (o : Option ℕ)
    → field < 128
    → m ≡ after none
    → ((v : ℕ) → apply_oxm m field (be16 v) [] ≡ ok (after (some (get_be (be16 v) 0))))
    → Below (2 ^ 16) o
    → Field 20 m (number_field field be16 o) (after o)
be16-Field field m after o f e h b =
    let get : (v : ℕ) → v < 2 ^ 16 → get_be (be16 v) 0 ≡ v = λ v l. omega arith in
    number-Field field be16 (2 ^ 16) m after o f e (λ v l. omega arith)
      (λ v l. h v ∙ ap (λ n. ok (after (some n))) (get v l)) b

pub be32-Field :
    (field : ℕ) (m : Match) (after : Option ℕ → Match) (o : Option ℕ)
    → field < 128
    → m ≡ after none
    → ((v : ℕ) → apply_oxm m field (be32 v) [] ≡ ok (after (some (get_be (be32 v) 0))))
    → Below (2 ^ 32) o
    → Field 20 m (number_field field be32 o) (after o)
be32-Field field m after o f e h b =
    let get : (v : ℕ) → v < 2 ^ 32 → get_be (be32 v) 0 ≡ v = λ v l. omega arith in
    number-Field field be32 (2 ^ 32) m after o f e (λ v l. omega arith)
      (λ v l. h v ∙ ap (λ n. ok (after (some n))) (get v l)) b

pub byte-Field :
    (field : ℕ) (m : Match) (after : Option ℕ → Match) (o : Option ℕ)
    → field < 128
    → m ≡ after none
    → ((v : ℕ) → apply_oxm m field (byte v) [] ≡ ok (after (some (0 * 256 + v))))
    → Below (2 ^ 8) o
    → Field 20 m (number_field field byte o) (after o)
byte-Field field m after o f e h b =
    number-Field field byte (2 ^ 8) m after o f e (λ v l. omega arith)
      (λ v l. h v ∙ ap (λ n. ok (after (some n))) (omega arith)) b

-- The fields from the transport ports on.
pub ports-Field :
    (m c : Match)
    → m.tcp_src ≡ none
    → m.tcp_dst ≡ none
    → m.udp_src ≡ none
    → m.udp_dst ≡ none
    → Below (2 ^ 16) c.tcp_src
    → Below (2 ^ 16) c.tcp_dst
    → Below (2 ^ 16) c.udp_src
    → Below (2 ^ 16) c.udp_dst
    → Field
        (20 + (20 + (20 + 20)))
        m
        (number_field 13 be16 c.tcp_src
          ++ (number_field 14 be16 c.tcp_dst
              ++ (number_field 15 be16 c.udp_src ++ number_field 16 be16 c.udp_dst)))
        (record m {
          tcp_src = c.tcp_src;
          tcp_dst = c.tcp_dst;
          udp_src = c.udp_src;
          udp_dst = c.udp_dst;
        })
unfolding apply_oxm
ports-Field m c a b d e h i j k =
    let m1 : Match = record m { tcp_src = c.tcp_src } in
    let m2 : Match = record m1 { tcp_dst = c.tcp_dst } in
    let m3 : Match = record m2 { udp_src = c.udp_src } in
    Field-append 20 60 m m1 _ _ _
      (be16-Field 13 m (λ o. record m { tcp_src = o }) c.tcp_src (omega arith)
        (ap (λ o. record m { tcp_src = o }) a) (λ v. refl) h)
      (Field-append 20 40 m1 m2 _ _ _
        (be16-Field 14 m1 (λ o. record m1 { tcp_dst = o }) c.tcp_dst (omega arith)
          (ap (λ o. record m1 { tcp_dst = o }) b) (λ v. refl) i)
        (Field-append 20 20 m2 m3 _ _ _
          (be16-Field 15 m2 (λ o. record m2 { udp_src = o }) c.udp_src (omega arith)
            (ap (λ o. record m2 { udp_src = o }) d) (λ v. refl) j)
          (be16-Field 16 m3 (λ o. record m3 { udp_dst = o }) c.udp_dst (omega arith)
            (ap (λ o. record m3 { udp_dst = o }) e) (λ v. refl) k)))

pub apply-eth_dst :
    (m : Match) (mac : List ℕ)
    → length mac ≡ 6
    → apply_oxm m 3 mac [] ≡ ok (record m { eth_dst = mac_string mac })
unfolding apply_oxm
apply-eth_dst m mac h = let six = eq→== _ _ h in rw six refl

pub apply-eth_src :
    (m : Match) (mac : List ℕ)
    → length mac ≡ 6
    → apply_oxm m 4 mac [] ≡ ok (record m { eth_src = mac_string mac })
unfolding apply_oxm
apply-eth_src m mac h = let six = eq→== _ _ h in rw six refl

pub apply-ipv4_src :
    (m : Match) (value mask : Bytes) (cidr : Text)
    → format_ipv4 value mask ≡ ok cidr
    → apply_oxm m 11 value mask ≡ ok (record m { ipv4_src = cidr })
unfolding apply_oxm
apply-ipv4_src m value mask cidr h = rw h refl

pub apply-ipv4_dst :
    (m : Match) (value mask : Bytes) (cidr : Text)
    → format_ipv4 value mask ≡ ok cidr
    → apply_oxm m 12 value mask ≡ ok (record m { ipv4_dst = cidr })
unfolding apply_oxm
apply-ipv4_dst m value mask cidr h = rw h refl

-- ===== src/Tftp/Tests.antt =====
-- The properties of the TFTP client on concrete files.
use terraform_provider_netge.Base.{
  ℕ, suc, ◌/◌, ◌≡◌, refl, Bool, false, Option, none, some, List, [], ◌∷◌, map, arith, length, drop,
  replicate, Bytes, ok,
}
use terraform_provider_netge.Tftp.{op_rrq, packet, packet_ack, get, put}
use terraform_provider_netge.Tftp.Get.{
  Arrival, fresh, repeated, arrivals, AreArrivals, contents, acks, get-arrivals,
}
use terraform_provider_netge.Tftp.Put.{get-put, acknowledged, put-acknowledged}

abbrev never : ℕ → Bool
never n = false

abbrev name : Bytes
name = 0x63 ∷ 0x66 ∷ 0x67 ∷ []

abbrev full_block : Bytes
full_block = replicate 512 7

-- A full block, the same block again, and a last block of two bytes.
abbrev lossy : List Arrival
lossy = fresh full_block ∷ repeated 1 full_block ∷ []

lossy-AreArrivals : AreArrivals 1 lossy
lossy-AreArrivals = (refl, ((omega arith, (refl, omega arith)), tt))

get-arrivals_example :
    get never name (arrivals 1 lossy (8 ∷ 9 ∷ []) [])
    ≡ (ok (contents lossy (8 ∷ 9 ∷ [])), packet op_rrq name ∷ acks 1 lossy)
get-arrivals_example =
    get-arrivals never (λ n. refl) name lossy (8 ∷ 9 ∷ []) [] lossy-AreArrivals (omega arith)

-- The first ACK of block 1 is lost.
abbrev replies : List (Option Bytes)
replies = some (packet_ack 0) ∷ none ∷ some (packet_ack 1) ∷ []

abbrev small : Bytes
small = 1 ∷ 2 ∷ 3 ∷ []

uploaded : (put never 0 name small replies).0 ≡ ok tt
unfolding put
uploaded = refl

get-put_example :
    (get never name (map some (drop 1 (put never 0 name small replies).1))).0 ≡ ok small
get-put_example = get-put never never 0 name name small replies (λ n. refl) uploaded

put-acknowledged_example :
    (put never 3 name small (some (packet_ack 0) ∷ acknowledged (suc (length small / 512)) 1)).0
    ≡ ok tt
put-acknowledged_example = put-acknowledged never (λ n. refl) 3 name small

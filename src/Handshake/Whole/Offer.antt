-- ===== src/Handshake/Whole/Offer.antt =====
-- What the server finds in the request of the client.
use webson.Common.{
  ℕ, ◌≤◌, ◌≡◌, refl, ◌∙◌, Bool, true, false, if◌then◌else◌, codes, List, [], ◌∷◌, length, arith,
}
use mathlib.Core.List.{Permᴰ}
use webson.Config.{Config}
use webson.Handshake.{max_streams_key, extensions_key, deflate_extension}
use webson.Handshake.Decimal.{itoa}
use webson.Handshake.Fields.{Fields, canonical, is_token, dashed, values_of, first_of}
use webson.Handshake.Fields.Order.{values_of-order}
use webson.Handshake.Request.{request_fields, set_fields, set_field, base_fields}

-- The values of a field that may be left out.
abbrev pub listed : Bool → List ℕ → List (List ℕ)
listed true v = v ∷ []
listed false v = []

pub listed-short : (b : Bool) (v : List ℕ) → length (listed b v) ≤ 1
listed-short true v = omega arith
listed-short false v = omega arith

pub listed-if : (b : Bool) (v : List ℕ) → first_of (listed b v) ≡ (if b then v else [])
listed-if true v = refl
listed-if false v = refl

pub listed-all : (b : Bool) (v : List ℕ) → listed b v ≡ (if b then v ∷ [] else [])
listed-all true v = refl
listed-all false v = refl

-- The fields of a request without extra headers.
abbrev offered : Bool → Bool → List ℕ → List ℕ → Fields
offered streams compress challenge n =
    let fs =
      if compress
      then set_field extensions_key deflate_extension (base_fields challenge)
      else base_fields challenge in
    if streams then set_field max_streams_key n fs else fs

request_offered :
    (challenge : List ℕ) (c : Config)
    → request_fields challenge [] c
      ≡ offered c.enable_streams c.enable_compress challenge (itoa c.max_streams)
unfolding request_fields set_fields
request_offered challenge c = refl

-- What is under each key.
pub record IsOffer (fs : Fields) (streams compress : Bool) (challenge n : List ℕ) : Type 0 where
  pub connection : values_of (canonical (codes "Connection")) fs ≡ codes "Upgrade" ∷ []
  pub upgrade : values_of (canonical (codes "Upgrade")) fs ≡ codes "websocket" ∷ []
  pub version : values_of (canonical (codes "Sec-Websocket-Version")) fs ≡ codes "13" ∷ []
  pub key : values_of (canonical (codes "Sec-Websocket-Key")) fs ≡ challenge ∷ []
  pub limit : values_of (canonical max_streams_key) fs ≡ listed streams n
  pub extensions : values_of (canonical extensions_key) fs ≡ listed compress deflate_extension

offered-cases :
    (P : Bool → Bool → Type 0)
    → P true true
    → P true false
    → P false true
    → P false false
    → (s e : Bool) → P s e
offered-cases P a b c d true true = a
offered-cases P a b c d true false = b
offered-cases P a b c d false true = c
offered-cases P a b c d false false = d

-- The fields, whichever of the two offers are made.
offered_limit :
    (challenge n : List ℕ) (s e : Bool)
    → (values_of (canonical max_streams_key) (offered s e challenge n) ≡ listed s n)
      × (values_of (canonical extensions_key) (offered s e challenge n)
          ≡ listed e deflate_extension)
unfolding values_of canonical is_token dashed set_field
offered_limit challenge n = offered-cases _ (refl, refl) (refl, refl) (refl, refl) (refl, refl)

offered_upgrade :
    (challenge n : List ℕ) (s e : Bool)
    → (values_of (canonical (codes "Connection")) (offered s e challenge n) ≡ codes "Upgrade" ∷ [])
      × (values_of (canonical (codes "Upgrade")) (offered s e challenge n) ≡ codes "websocket" ∷ [])
unfolding values_of canonical is_token dashed set_field
offered_upgrade challenge n = offered-cases _ (refl, refl) (refl, refl) (refl, refl) (refl, refl)

offered_key :
    (challenge n : List ℕ) (s e : Bool)
    → (values_of (canonical (codes "Sec-Websocket-Version")) (offered s e challenge n)
        ≡ codes "13" ∷ [])
      × (values_of (canonical (codes "Sec-Websocket-Key")) (offered s e challenge n)
          ≡ challenge ∷ [])
unfolding values_of canonical is_token dashed set_field
offered_key challenge n = offered-cases _ (refl, refl) (refl, refl) (refl, refl) (refl, refl)

offered-IsOffer :
    (s e : Bool) (challenge n : List ℕ) → IsOffer (offered s e challenge n) s e challenge n
offered-IsOffer s e challenge n = record {
  connection = (offered_upgrade challenge n s e).0;
  upgrade = (offered_upgrade challenge n s e).1;
  version = (offered_key challenge n s e).0;
  key = (offered_key challenge n s e).1;
  limit = (offered_limit challenge n s e).0;
  extensions = (offered_limit challenge n s e).1;
}

-- One value under a key is there in any order of the fields.
pub value_in_order :
    (key : List ℕ) (fs gs : Fields) (vs : List (List ℕ))
    → Permᴰ fs gs
    → values_of key gs ≡ vs
    → length vs ≤ 1
    → values_of key fs ≡ vs
value_in_order key fs gs vs d e h = values_of-order key d (rw e h) ∙ e

order-IsOffer :
    (fs gs : Fields) (s e : Bool) (challenge n : List ℕ)
    → Permᴰ fs gs
    → IsOffer gs s e challenge n
    → IsOffer fs s e challenge n
order-IsOffer fs gs s e challenge n d o = record {
  connection = value_in_order _ fs gs _ d o.connection (omega arith);
  upgrade = value_in_order _ fs gs _ d o.upgrade (omega arith);
  version = value_in_order _ fs gs _ d o.version (omega arith);
  key = value_in_order _ fs gs _ d o.key (omega arith);
  limit = value_in_order _ fs gs _ d o.limit (listed-short s n);
  extensions = value_in_order _ fs gs _ d o.extensions (listed-short e deflate_extension);
}

pub request-IsOffer :
    (challenge : List ℕ) (c : Config) (fs : Fields)
    → Permᴰ fs (request_fields challenge [] c)
    → IsOffer fs c.enable_streams c.enable_compress challenge (itoa c.max_streams)
request-IsOffer challenge c fs d =
    let o = offered-IsOffer c.enable_streams c.enable_compress challenge (itoa c.max_streams) in
    order-IsOffer fs (request_fields challenge [] c) _ _ challenge _ d
      (rw (request_offered challenge c) o)

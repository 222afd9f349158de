-- ===== src/Handshake/Whole/Reply.antt =====
-- What the client finds in the answer of the server.
use webson.Common.{
  ℕ, ◌≤◌, ◌≡◌, refl, Bool, true, false, List, [], ◌∷◌, Option, none, some, length, arith,
}
use mathlib.Core.List.{Permᴰ}
use webson.Handshake.{max_streams_key, extensions_key, accept_key, deflate_extension}
use webson.Handshake.Fields.{Fields, canonical, is_token, dashed, values_of}
use webson.Handshake.Server.{answer_fields}
use webson.Handshake.Whole.Offer.{listed, listed-short, value_in_order}

abbrev pub listed_some : Option (List ℕ) → List (List ℕ)
listed_some none = []
listed_some (some v) = v ∷ []

listed_some-short : (o : Option (List ℕ)) → length (listed_some o) ≤ 1
listed_some-short none = omega arith
listed_some-short (some v) = omega arith

-- What is under each key.
pub record IsReply (fs : Fields) (compress : Bool) (streams : Option (List ℕ)) (accept : List ℕ)
    : Type 0 where
  pub accepted : values_of (canonical accept_key) fs ≡ accept ∷ []
  pub limit : values_of (canonical max_streams_key) fs ≡ listed_some streams
  pub extensions : values_of (canonical extensions_key) fs ≡ listed compress deflate_extension

answer-IsReply :
    (compress : Bool) (streams : Option (List ℕ)) (accept : List ℕ)
    → IsReply (answer_fields compress streams accept) compress streams accept
unfolding answer_fields values_of canonical is_token dashed
answer-IsReply true none accept = record { accepted = refl; limit = refl; extensions = refl }
answer-IsReply true (some n) accept = record { accepted = refl; limit = refl; extensions = refl }
answer-IsReply false none accept = record { accepted = refl; limit = refl; extensions = refl }
answer-IsReply false (some n) accept = record { accepted = refl; limit = refl; extensions = refl }

pub order-IsReply :
    (fs : Fields) (compress : Bool) (streams : Option (List ℕ)) (accept : List ℕ)
    → Permᴰ fs (answer_fields compress streams accept)
    → IsReply fs compress streams accept
order-IsReply fs compress streams accept d =
    let o = answer-IsReply compress streams accept in
    record {
      accepted = value_in_order _ fs _ _ d o.accepted (omega arith);
      limit = value_in_order _ fs _ _ d o.limit (listed_some-short streams);
      extensions = value_in_order _ fs _ _ d o.extensions (listed-short compress deflate_extension);
    }

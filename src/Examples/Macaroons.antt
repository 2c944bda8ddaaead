-- ===== src/Examples/Macaroons.antt =====
-- A concrete macaroon library that meets the laws: a macaroon is its key and its identifier, and
-- its binary form is the two in hexadecimal with a colon between them.
use blockade.Prelude.{
  ltb, if◌then◌else◌, new, Result, ok, err, ◌>>=◌, ◌==◌, Bytes, IsBytes, eq_iff, eq_refl, ◌≡◌, Bool,
  true, ◌&&◌, none, some, [], ◌∷◌, ◌++◌, arith,
}
use blockade.Std.Strings.{split_at}
use blockade.Std.Hex
use blockade.Std.Hex.Laws
use blockade.Lightning.Services.{MacaroonLib, MacaroonLaws}
use blockade.Std.Strings.Laws.{split_at-first}

pub record Plain : Type 0 where
  pub signature : Bytes
  pub ident : Bytes

abbrev pub all_bytes : Bytes → Bool
all_bytes [] = true
all_bytes (b ∷ bs) = ltb b 256 && all_bytes bs

all_bytes-IsBytes : (bs : Bytes) → all_bytes bs ≡ true → IsBytes bs
all_bytes-IsBytes [] h = tt
all_bytes-IsBytes (b ∷ bs) h = (ground arith, all_bytes-IsBytes bs (ground arith))

unfoldable pub marshal : Plain → Result Bytes
marshal m =
    if all_bytes m.signature && all_bytes m.ident
    then ok (Hex.encode m.signature ++ (b':' ∷ Hex.encode m.ident))
    else err (new "not bytes")

unfoldable pub unmarshal : Bytes → Result Plain
unmarshal raw = elim (split_at b':' raw) [
  | none ↦ err (new "no colon")
  | some (a, b) ↦ do
    signature ← Hex.decode a
    ident ← Hex.decode b
    ok (record { signature = signature; ident = ident })
]

unfoldable pub verify : Bytes → Plain → Result (Unit {0})
verify k m = if m.signature == k then ok tt else err (new "signature mismatch")

abbrev pub plain_lib : MacaroonLib Plain
plain_lib = record {
  mint = λ k i l. ok (record { signature = k; ident = i });
  marshal_binary = marshal;
  unmarshal_binary = unmarshal;
  id = λ m. m.ident;
  verify = verify;
}

marshal_lem :
    (m : Plain) (raw : Bytes)
    → marshal m ≡ ok raw
    → IsBytes m.signature
      × IsBytes m.ident
      × (raw ≡ Hex.encode m.signature ++ (b':' ∷ Hex.encode m.ident))
unfolding marshal
marshal_lem m raw h = (
  all_bytes-IsBytes m.signature (ground arith),
  all_bytes-IsBytes m.ident (ground arith),
  ground arith,
)

append-IsBytes : (a b : Bytes) → IsBytes a → IsBytes b → IsBytes (a ++ b)
append-IsBytes [] b ha hb = hb
append-IsBytes (x ∷ a) b ha hb = (ha.0, append-IsBytes a b ha.1 hb)

marshal-IsBytes : (m : Plain) (raw : Bytes) → marshal m ≡ ok raw → IsBytes raw
marshal-IsBytes m raw h =
    let (hs, hi, e) = marshal_lem m raw h in
    rw e (
      append-IsBytes (Hex.encode m.signature) _ (Hex.Laws.encode-IsBytes m.signature hs)
        (omega arith, Hex.Laws.encode-IsBytes m.ident hi))

unmarshal-marshal : (m : Plain) (raw : Bytes) → marshal m ≡ ok raw → unmarshal raw ≡ ok m
unfolding unmarshal
unmarshal-marshal m raw h =
    let (hs, hi, e) = marshal_lem m raw h in
    ground (
      arith,
      e,
      split_at-first b':' (Hex.encode m.signature) (Hex.encode m.ident)
          (Hex.Laws.encode-NoColon m.signature hs),
      Hex.Laws.decode-encode m.signature hs,
      Hex.Laws.decode-encode m.ident hi,
    )

pub plain_lib-MacaroonLaws : MacaroonLaws plain_lib
unfolding verify
plain_lib-MacaroonLaws = record {
  id_mint = λ k i l m h. ground arith;
  marshal_bytes = marshal-IsBytes;
  unmarshal_marshal = unmarshal-marshal;
  verify_mint = λ k i l m h. ground (arith, eq_refl k);
  verify_key = λ k i l k' m h q. ground (arith, eq_iff m.signature k');
}

-- ===== src/Protocol/Payload.antt =====
-- The key and the value that `kvs_tcp_protocol` cuts out of a payload "key value" or "key".
use kv_study.Prelude.{
  ℕ, ◌≡◌, ◌≢◌, refl, ◌∙◌, ap, true, false, Option, none, some, List, [], ◌∷◌, ◌++◌, ◌==◌, Str,
  arith,
}
use kv_study.Protocol.Request.{c_string, cut_at, pick_key, pick_value, key_of, value_of}

-- No byte of the string is `c`.
abbrev pub Lacks : ℕ → Str → Type 0
Lacks c [] = Unit
Lacks c (b ∷ s) = (b ≢ c) × Lacks c s

pub c_string-Lacks : (s : Str) → Lacks 0 s → c_string s ≡ s
unfolding c_string
c_string-Lacks [] clean = refl
c_string-Lacks (b ∷ s) clean = ground (arith, c_string-Lacks s)

Lacks-pair : (k v : Str) → Lacks 0 k → Lacks 0 v → Lacks 0 (k ++ b' ' ∷ v)
Lacks-pair [] v ck cv = (omega arith, cv)
Lacks-pair (b ∷ k) v ck cv = (ck.0, Lacks-pair k v ck.1 cv)

pub cut_at-pair : (c : ℕ) (k v : Str) → Lacks c k → cut_at c (k ++ c ∷ v) ≡ some (k, v)
unfolding cut_at
cut_at-pair c [] v word = let same : c == c ≡ true = ground arith in rw same
cut_at-pair c (b ∷ k) v word =
    let other : b == c ≡ false = ground arith in rw (other, cut_at-pair c k v word.1)

cut_at-word : (c : ℕ) (k : Str) → Lacks c k → cut_at c k ≡ none
unfolding cut_at
cut_at-word c [] word = refl
cut_at-word c (b ∷ k) word =
    let other : b == c ≡ false = ground arith in rw (other, cut_at-word c k word.1)

pub value_of-pair :
    (k v : Str) → Lacks 0 k → Lacks b' ' k → Lacks 0 v → value_of (k ++ b' ' ∷ v) ≡ some v
unfolding value_of pick_value
value_of-pair k v ck word cv =
    ap (λ s. pick_value (cut_at b' ' s)) (c_string-Lacks (k ++ b' ' ∷ v) (Lacks-pair k v ck cv))
    ∙ ap pick_value (cut_at-pair b' ' k v word)

key_of-cut :
    (b : ℕ) (bs : List ℕ) (r : Option (Str × Str))
    → Lacks 0 (b ∷ bs)
    → cut_at b' ' (b ∷ bs) ≡ r
    → key_of (b ∷ bs) ≡ pick_key (b ∷ bs) r
unfolding key_of
key_of-cut b bs r clean cut =
    ap (λ s. pick_key s (cut_at b' ' s)) (c_string-Lacks (b ∷ bs) clean)
    ∙ ap (pick_key (b ∷ bs)) cut

pub key_of-pair :
    (k v : Str) → Lacks 0 k → Lacks b' ' k → Lacks 0 v → key_of (k ++ b' ' ∷ v) ≡ some k
unfolding pick_key
key_of-pair [] v ck word cv =
    key_of-cut b' ' v _ (Lacks-pair [] v ck cv) (cut_at-pair b' ' [] v word)
key_of-pair (b ∷ k) v ck word cv =
    key_of-cut b (k ++ b' ' ∷ v) _ (Lacks-pair (b ∷ k) v ck cv) (cut_at-pair b' ' (b ∷ k) v word)

pub key_of-word :
    (b : ℕ) (k : Str) → Lacks 0 (b ∷ k) → Lacks b' ' (b ∷ k) → key_of (b ∷ k) ≡ some (b ∷ k)
unfolding pick_key
key_of-word b k ck word = key_of-cut b k _ ck (cut_at-word b' ' (b ∷ k) word)

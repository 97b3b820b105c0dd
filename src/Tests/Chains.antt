-- ===== src/Tests/Chains.antt =====
-- Runs of kvs_hash.c on an empty table.
use kv_study.Prelude.{
  ℕ, zero, suc, ◌≡◌, ◌≢◌, refl, true, none, some, List, [], ◌∷◌, replicate, length-replicate, ℤ,
  pos, negsuc, Ptr, Str, codes, str_eq, if◌then◌else◌, fault, Returns, arith,
}
use kv_study.Hash.{chain, KvsHash, kvs_hash_set, kvs_hash_del}
use kv_study.Hash.Index.{hash_index, IsAscii}
use kv_study.Hash.Chain.{find, count}
use kv_study.Hash.Buckets.{IsValid, view, view_at, AllChains, chain_at, total_nodes}
use kv_study.Hash.Methods.{Answer, SetAnswer, kvs_hash_set-Answer}
use kv_study.Hash.Delete.{kvs_hash_del-Answer}
use kv_study.Hash.Foreign.{foreign_key-fault}
use kv_study.Hash.Calls.{
  AllGranted, Call, call, calls, Map, spec_maps, spec_replies, Refines, AsciiKeys, calls-Refines,
}

abbrev pub empty_hash : KvsHash
empty_hash = record { nodes = replicate 1024 (chain []); max_slots = 1024; count = 0 }

AllChains-replicate : (n : ℕ) → AllChains (replicate n (chain []))
AllChains-replicate zero = tt
AllChains-replicate (suc n) = AllChains-replicate n

chain_at-replicate : (n i : ℕ) → chain_at (replicate n (chain [])) i ≡ []
unfolding chain_at
chain_at-replicate zero i = refl
chain_at-replicate (suc n) zero = refl
chain_at-replicate (suc n) (suc i) = chain_at-replicate n i

total_nodes-replicate : (n : ℕ) → total_nodes (replicate n (chain [])) ≡ 0
unfolding total_nodes
total_nodes-replicate zero = refl
total_nodes-replicate (suc n) = omega (arith, total_nodes-replicate n)

empty_hash-IsValid : IsValid empty_hash
unfolding count
empty_hash-IsValid = record {
  width = length-replicate 1024 (chain []);
  chains = AllChains-replicate 1024;
  placed = λ q i. rw (chain_at-replicate 1024 i) (omega arith, λ away. refl);
  counted = total_nodes-replicate 1024;
}

abbrev pub no_keys : Map
no_keys q = none

empty_hash-view : (q : Str) (i : ℤ) → view_at empty_hash.nodes q i ≡ none
unfolding find
empty_hash-view q (pos i) = rw (chain_at-replicate 1024 i)
empty_hash-view q (negsuc n) = refl

empty_hash-Refines : Refines empty_hash no_keys
empty_hash-Refines = record {
  valid = empty_hash-IsValid;
  reads = λ q. empty_hash-view q (hash_index q);
  solid = λ q e. cc;
  sound = λ q e. cc;
}

abbrev some_calls : List Call
some_calls =
    Call.set true true true (codes "a") (codes "1")
    ∷ Call.set true true true (codes "a") (codes "2")
    ∷ Call.modify true (codes "a") (codes "3")
    ∷ Call.get (codes "a")
    ∷ Call.del (codes "a")
    ∷ Call.exist (codes "a")
    ∷ []

some_calls-AsciiKeys : AsciiKeys some_calls
some_calls-AsciiKeys =
    let a : IsAscii (codes "a") = (omega arith, tt) in (a, (a, (a, (a, (a, (a, tt))))))

some_calls-AllGranted : AllGranted some_calls
some_calls-AllGranted = ((refl, refl, refl), ((refl, refl, refl), (refl, (tt, (tt, (tt, tt))))))

calls-Refines_example :
    Returns
      (calls some_calls empty_hash)
      λ r. Refines r.0 (spec_maps some_calls no_keys) × (r.1 ≡ spec_replies some_calls no_keys)
calls-Refines_example =
    calls-Refines some_calls empty_hash no_keys empty_hash-Refines some_calls-AsciiKeys
      some_calls-AllGranted

-- U+00E9 in UTF-8
foreign_key-fault_example : call (Call.get (195 ∷ 169 ∷ [])) empty_hash ≡ fault
foreign_key-fault_example =
    foreign_key-fault (Call.get (195 ∷ 169 ∷ [])) empty_hash
      (omega arith, omega arith, (omega arith, omega arith, tt)) (omega arith) (omega arith)

a_home : hash_index (codes "a") ≡ pos 97
unfolding hash_index
a_home = refl

kvs_hash_set-Answer_example :
    SetAnswer empty_hash
      (codes "a")
      (codes "1")
      true
      (view empty_hash (codes "a"))
      (kvs_hash_set true true true empty_hash (some (codes "a")) (some (codes "1")))
kvs_hash_set-Answer_example =
    kvs_hash_set-Answer empty_hash-IsValid (codes "a") 97 a_home (omega arith) true true true
      (codes "1")

a_sound : view empty_hash (codes "a") ≢ some Ptr.wild
a_sound = rw (empty_hash-view (codes "a") (hash_index (codes "a"))) (λ e. cc)

kvs_hash_del-Answer_example : Returns (kvs_hash_del empty_hash (some (codes "a"))) (
    Answer
      (elim (view empty_hash (codes "a")) [ some old ↦ pos 0 | none ↦ negsuc 0 ])
      (λ q. if str_eq (codes "a") q then none else view empty_hash q))
kvs_hash_del-Answer_example =
    kvs_hash_del-Answer empty_hash-IsValid (codes "a") 97 a_home (omega arith) a_sound

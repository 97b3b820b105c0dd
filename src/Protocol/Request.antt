-- ===== src/Protocol/Request.antt =====
-- The request of `kvs_tcp_protocol` in kvstore.c: the command code, and the key and the value cut out
-- of the payload.
use kv_study.Prelude.{ℕ, Option, none, some, List, [], ◌∷◌, ◌==◌, if◌then◌else◌, Str}
use mathlib.Core.Option

pub data Cmd : Type 0 where
  set get del modify exist rset rget hset hget zadd zrem zrange save unknown : Cmd

-- The codes with a case of their own in the `switch`; the other members of the enumeration have none.
unfoldable pub cmd_of : ℕ → Cmd
cmd_of n =
    if n == 1
    then Cmd.set
    else if n == 2
    then Cmd.get
    else if n == 3
    then Cmd.del
    else if n == 4
    then Cmd.modify
    else if n == 5
    then Cmd.exist
    else if n == 11
    then Cmd.rset
    else if n == 12
    then Cmd.rget
    else if n == 21
    then Cmd.hset
    else if n == 22
    then Cmd.hget
    else if n == 31
    then Cmd.zadd
    else if n == 32
    then Cmd.zrem
    else if n == 33
    then Cmd.zrange
    else if n == 6
    then Cmd.save
    else Cmd.unknown

-- The string that begins where the bytes begin: it ends at the first NUL.
unfoldable pub c_string : List ℕ → Str
c_string [] = []
c_string (b ∷ bs) = if b == 0 then [] else b ∷ c_string bs

-- `strchr (s, c)`: what stands before the first `c`, and what stands behind it.
unfoldable pub cut_at : ℕ → Str → Option (Str × Str)
cut_at c [] = none
cut_at c (b ∷ s) = if b == c then some ([], s) else Option.map (λ r. (b ∷ r.0, r.1)) (cut_at c s)

-- The key of a string that was cut, or not.
unfoldable pub pick_key : Str → Option (Str × Str) → Option Str
pick_key s none = some s
pick_key s (some (key, value)) = some key

unfoldable pub pick_value : Option (Str × Str) → Option Str
pick_value none = none
pick_value (some (key, value)) = some value

-- `key`, NULL for an empty payload.
unfoldable pub key_of : List ℕ → Option Str
unfolding c_string cut_at pick_key
key_of [] = none
key_of (b ∷ bs) = let s = c_string (b ∷ bs) in pick_key s (cut_at b' ' s)

-- `value`, NULL where the payload has no space.
unfoldable pub value_of : List ℕ → Option Str
unfolding c_string cut_at pick_value
value_of payload = pick_value (cut_at b' ' (c_string payload))

-- ===== src/Budget/Storage.antt =====
-- The storage of a budget object: its keys, its counters, and what a write changes.
use snow_mcp.Common.{
  ℕ, ◌≡◌, refl, String, Bool, true, false, ◌&&◌, Option, none, some, List, [], ◌∷◌, ◌==◌, any,
  if◌then◌else◌, arith, str_eq,
}

pub data Dimension : Type 0 where
  unique_workers sandbox_rpc_calls service_now_requests : Dimension
  rows_returned bytes_returned outbound_bytes_sent : Dimension

abbrev dim_index : Dimension → ℕ
dim_index unique_workers = 0
dim_index sandbox_rpc_calls = 1
dim_index service_now_requests = 2
dim_index rows_returned = 3
dim_index bytes_returned = 4
dim_index outbound_bytes_sent = 5

unfoldable pub dim_eq : Dimension → Dimension → Bool
dim_eq a b = dim_index a == dim_index b

abbrev pub dimensions : List Dimension
dimensions =
    unique_workers ∷ sandbox_rpc_calls ∷ service_now_requests ∷ rows_returned ∷ bytes_returned
    ∷ outbound_bytes_sent ∷ []

-- The texts `dim:${dimension}` and `user:${userId}:${dimension}`, which differ for different
-- arguments: no dimension's name has a colon.
pub data Key : Type 0 where
  global : Dimension → Key
  per_user : String → Dimension → Key

unfoldable pub key_eq : Key → Key → Bool
key_eq (global a) (global b) = dim_eq a b
key_eq (per_user u a) (per_user v b) = str_eq u v && dim_eq a b
key_eq _ _ = false

abbrev pub Counters : Type 0
Counters = Key → Option ℕ

abbrev or_zero : Option ℕ → ℕ
or_zero none = 0
or_zero (some n) = n

-- `stored.get(key) ?? 0`.
unfoldable pub counter : Counters → Key → ℕ
counter s k = or_zero (s k)

unfoldable pub put : Counters → Key → ℕ → Counters
put s k v j = if key_eq k j then some v else s j

-- `ctx.storage.put(updates)`.
unfoldable pub put_all : List (Key × ℕ) → Counters → Counters
put_all [] s = s
put_all ((k, v) ∷ us) s = put_all us (put s k v)

pub dim_eq-eq : (a b : Dimension) → dim_eq a b ≡ true → a ≡ b
unfolding dim_eq
dim_eq-eq a b h = ground arith

pub dim_eq_self : (a : Dimension) → dim_eq a a ≡ true
unfolding dim_eq
dim_eq_self a = ground arith

or_zero-if :
    (b : Bool) (v : ℕ) (o : Option ℕ)
    → or_zero (if b then some v else o) ≡ (if b then v else or_zero o)
or_zero-if true v o = refl
or_zero-if false v o = refl

pub counter-put :
    (s : Counters) (k j : Key) (v : ℕ)
    → counter (put s k v) j ≡ (if key_eq k j then v else counter s j)
unfolding counter put
counter-put s k j v = or_zero-if (key_eq k j) v (s j)

abbrev pub mem : Dimension → List Dimension → Bool
mem e ds = any (λ d. dim_eq d e) ds

module _ (t : Counters) where
  pub put_global-global :
      (d e : Dimension) (n : ℕ)
      → counter (put t (global d) n) (global e) ≡ (if dim_eq d e then n else counter t (global e))
  unfolding key_eq
  put_global-global d e n = counter-put t (global d) (global e) n

  pub put_per_user-global :
      (u : String) (d e : Dimension) (n : ℕ)
      → counter (put t (per_user u d) n) (global e) ≡ counter t (global e)
  unfolding key_eq
  put_per_user-global u d e n = counter-put t (per_user u d) (global e) n

  pub put_global-per_user :
      (v : String) (d e : Dimension) (n : ℕ)
      → counter (put t (global d) n) (per_user v e) ≡ counter t (per_user v e)
  unfolding key_eq
  put_global-per_user v d e n = counter-put t (global d) (per_user v e) n

  pub put_per_user-per_user :
      (u v : String) (d e : Dimension) (n : ℕ)
      → counter (put t (per_user u d) n) (per_user v e)
        ≡ (if str_eq u v && dim_eq d e then n else counter t (per_user v e))
  unfolding key_eq
  put_per_user-per_user u v d e n = counter-put t (per_user u d) (per_user v e) n

pub ruleset put_laws =
    (put_global-global, put_per_user-global, put_global-per_user, put_per_user-per_user)

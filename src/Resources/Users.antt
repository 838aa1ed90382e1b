-- ===== src/Resources/Users.antt =====
-- src/resources.rs: the pools that `ResourceGovernor::account` gives to users.
use Prim.Native.String.{◌++◌ as text_append}
use astra_shell.Prelude.{
  ℕ, ◌+◌, ◌<◌, ◌≡◌, ◌≢◌, sym, subst, ◌∙◌, String, inl, inr, arith, some, none, Option-cases,
  Bool-cases, true, false, str_eq, str_eq_iff, length, length-append, get_elem?, get_elem?-snoc, ap,
  refl, [], ◌∷◌, ◌++◌,
}
use astra_shell.Prelude.Result.{Result, ok, err, panic, Result-cases}
use astra_shell.Map
use astra_shell.Map.Laws.{get-insert, get-insert_self, get-insert_other}
use astra_shell.Resources.Limits.{ConfigError, account_user_empty}
use astra_shell.Resources.Pool.{ResourcePool, new}
use astra_shell.Resources.Account.{Pools, ResourceAccount, ResourceGovernor, layered, account}

-- Handles name pools, and no two users share one, nor does a user hold the global pool.
pub record IsRegistry (g : ResourceGovernor) (pools : Pools) : Type 0 where
  pub global_named : g.global < length pools
  pub named : (user : String) (h : ℕ) → Map.get user g.users ≡ some h → h < length pools
  pub apart : (user : String) (h : ℕ) → Map.get user g.users ≡ some h → h ≢ g.global
  pub injective :
      (user other : String) (h : ℕ)
      → Map.get user g.users ≡ some h
      → Map.get other g.users ≡ some h
      → user ≡ other

ok-injective :
    {r t : ResourceAccount × ResourceGovernor × Pools}
    → ◌≡◌ {A = Result ConfigError (ResourceAccount × ResourceGovernor × Pools)} (ok r) (ok t)
    → r ≡ t
ok-injective e = cc

-- What a successful call comes to: the user was known, and nothing changes; or the user has a new
-- pool at the end of the pools.
data Opened (g : ResourceGovernor) (user : String) (pools : Pools)
    (r : ResourceAccount × ResourceGovernor × Pools) : Type 0 where
  known :
      (h : ℕ)
      → Map.get user g.users ≡ some h
      → r ≡ (layered g.global h, g, pools)
      → Opened g user pools r
  fresh :
      (pool : ResourcePool)
      → Map.get user g.users ≡ none
      → new (text_append "user " user) g.user_limits ≡ ok pool
      → r ≡ (
        layered g.global (length pools),
        record g { users = Map.insert user (length pools) g.users },
        pools ++ pool ∷ [],
      )
      → Opened g user pools r

module _ (g : ResourceGovernor) (user : String) (pools : Pools) where
  abbrev scope : String
  scope = text_append "user " user

  abbrev opens : ResourcePool → ResourceAccount × ResourceGovernor × Pools
  opens pool = (
    layered g.global (length pools),
    record g { users = Map.insert user (length pools) g.users },
    pools ++ pool ∷ [],
  )

  account-empty : str_eq user "" ≡ true → account g user pools ≡ err account_user_empty
  unfolding account
  account-empty t = rw (t, account)

  account-known :
      (h : ℕ)
      → str_eq user "" ≡ false
      → Map.get user g.users ≡ some h
      → account g user pools ≡ ok (layered g.global h, g, pools)
  unfolding account
  account-known h f k = rw (f, account, k)

  module _ (f : str_eq user "" ≡ false) (k : Map.get user g.users ≡ none) where
    account-opens :
        (pool : ResourcePool)
        → new scope g.user_limits ≡ ok pool
        → account g user pools ≡ ok (opens pool)
    unfolding account
    account-opens pool p = rw (f, account, k, p)

    account-fails :
        (x : ConfigError) → new scope g.user_limits ≡ err x → account g user pools ≡ err x
    unfolding account
    account-fails x p = rw (f, account, k, p)

    account-panics : new scope g.user_limits ≡ panic → account g user pools ≡ panic
    unfolding account
    account-panics p = rw (f, account, k, p)

  account-Opened :
      (r : ResourceAccount × ResourceGovernor × Pools)
      → account g user pools ≡ ok r
      → Opened g user pools r
  account-Opened r e = elim (Bool-cases (str_eq user "")) [
    | inl t ↦ cc (sym (account-empty t) ∙ e)
    | inr f ↦ elim (Option-cases (Map.get user g.users)) [
      | inr (h, k) ↦ known h k (ok-injective (sym e ∙ account-known h f k))
      | inl k ↦ elim (Result-cases (new scope g.user_limits)) [
        | inl (pool, p) ↦ fresh pool k p (ok-injective (sym e ∙ account-opens f k pool p))
        | inr (inl (x, p)) ↦ cc (sym e ∙ account-fails f k x p)
        | inr (inr p) ↦ cc (sym e ∙ account-panics f k p)
      ]
    ]
  ]

-- What a successful call returns: the account, the registry and the pools.
abbrev Opening : Type 0
Opening = ResourceAccount × ResourceGovernor × Pools

length-snoc : (pools : Pools) (p : ResourcePool) → length (pools ++ p ∷ []) ≡ length pools + 1
length-snoc pools p = length-append pools (p ∷ [])

-- A new user is put at a handle that no other holds.
fresh-IsRegistry :
    (g : ResourceGovernor) (user : String) (pools : Pools) (pool : ResourcePool)
    → IsRegistry g pools
    → IsRegistry (record g { users = Map.insert user (length pools) g.users }) (pools ++ pool ∷ [])
fresh-IsRegistry g user pools pool v = record {
  global_named = omega (arith, v.global_named, length-snoc pools pool);
  named = λ u h e.
      ground (arith, get-insert user u (length pools) g.users, v.named u h, length-snoc pools pool);
  apart = λ u h e.
      ground (arith, get-insert user u (length pools) g.users, v.apart u h, v.global_named);
  injective = λ u w h e d. ground (
    arith,
    get-insert user u (length pools) g.users,
    get-insert user w (length pools) g.users,
    str_eq_iff user u,
    str_eq_iff user w,
    v.injective u w h,
    v.named u h,
    v.named w h,
  );
}

-- The account that a call gives to `user`, with the registry and the pools that it leaves.
pub record Given (g : ResourceGovernor) (user : String) (pools : Pools) (r : Opening) : Type 0 where
  pub registry : IsRegistry r.1 r.2
  pub handle : ℕ
  pub registered : Map.get user r.1.users ≡ some handle
  pub its_account : r.0 ≡ layered r.1.global handle
  pub same_global : r.1.global ≡ g.global
  pub same_limits : r.1.user_limits ≡ g.user_limits
  pub same_others :
      (other : String) → user ≢ other → Map.get other r.1.users ≡ Map.get other g.users
  pub same_pools : (i : ℕ) → i < length pools → get_elem? r.2 i ≡ get_elem? pools i
  pub reuses : (h : ℕ) → Map.get user g.users ≡ some h → r ≡ (layered g.global h, g, pools)
  pub opens_one :
      Map.get user g.users ≡ none
      → (pool : ResourcePool) × (new (text_append "user " user) g.user_limits ≡ ok pool)
        × (r.2 ≡ pools ++ pool ∷ [])

known-Given :
    (g : ResourceGovernor) (user : String) (pools : Pools) (h : ℕ)
    → IsRegistry g pools
    → Map.get user g.users ≡ some h
    → Given g user pools (layered g.global h, g, pools)
known-Given g user pools h v k = record {
  registry = v;
  handle = h;
  registered = k;
  its_account = refl;
  same_global = refl;
  same_limits = refl;
  same_others = λ other ne. refl;
  same_pools = λ i below. refl;
  reuses = λ j e. let h_j : h ≡ j = cc in ap (λ n. (layered g.global n, g, pools)) h_j;
  opens_one = λ e. cc;
}

old_pool :
    (pools : Pools) (pool : ResourcePool) (i : ℕ)
    → i < length pools
    → get_elem? (pools ++ pool ∷ []) i ≡ get_elem? pools i
old_pool pools pool i below = elim (get_elem?-snoc pools pool i) [
  | inl (ne, same) ↦ same
  | inr (last, e) ↦ absurd (omega arith)
]

fresh-Given :
    (g : ResourceGovernor) (user : String) (pools : Pools) (pool : ResourcePool)
    → IsRegistry g pools
    → Map.get user g.users ≡ none
    → new (text_append "user " user) g.user_limits ≡ ok pool
    → Given g user pools (opens g user pools pool)
fresh-Given g user pools pool v k made = record {
  registry = fresh-IsRegistry g user pools pool v;
  handle = length pools;
  registered = get-insert_self user (length pools) g.users;
  its_account = refl;
  same_global = refl;
  same_limits = refl;
  same_others = λ other ne. get-insert_other user other (length pools) g.users ne;
  same_pools = old_pool pools pool;
  reuses = λ h e. cc;
  opens_one = λ e. (pool, made, refl);
}

-- In a registry whose handles name pools, no two users sharing one and none holding the global pool, a
-- call that succeeds gives the user the account of the global pool and of the pool that the registry has
-- for the user. A known user gets the pool that is there, and nothing changes; for an unknown one a single
-- new pool of the limits of a user is put behind the others. The global handle, the limits, the handles of
-- the other users and the pools that were there stay, and the registry is again one of that kind.
pub account-IsRegistry :
    (g : ResourceGovernor) (user : String) (pools : Pools) (r : Opening)
    → IsRegistry g pools
    → account g user pools ≡ ok r
    → Given g user pools r
account-IsRegistry g user pools r v e = go (account-Opened g user pools r e)
  where
    go : Opened g user pools r → Given g user pools r
    go (known h k eq) = subst (Given g user pools) (sym eq) (known-Given g user pools h v k)
    go (fresh pool k made eq) =
        subst (Given g user pools) (sym eq) (fresh-Given g user pools pool v k made)

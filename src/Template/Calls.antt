-- ===== src/Template/Calls.antt =====
-- What each call of the pallet does, on every branch.
use create_chain_substrate_n.Common.{
  ℕ, ◌+◌, ◌≤◌, ◌<◌, ◌≡◌, refl, ◌≢◌, ◌↔◌, inl, inr, ok, err, Option, none, some, [], ◌∷◌, ◌++◌,
  arith, dec_lt, Result-cases, Option-cases,
}
use create_chain_substrate_n.Template.{
  Config, IsLawful, something_stored, none_value, storage_overflow, Call, do_something_call,
  cause_error_call, do_something, cause_error, dispatch, u32_max,
}
use create_chain_substrate_n.Template.Requests.{InRange}

module _ (T : Config) (L : IsLawful T) where
  -- A signed `do_something` outside the genesis block succeeds, stores its argument, and appends
  -- the one event `SomethingStored` with the argument and the signer to the block's events.
  do_something_stores :
      (origin : T.OriginFor) (something : ℕ) (s : T.State) {who : T.AccountId}
      → T.ensure_signed origin ≡ ok who
      → L.block_number s ≢ 0
      → let (r, s') = do_something T origin something s in
        (r ≡ ok tt)
        × (T.get s' ≡ some something)
        × (L.events s' ≡ L.events s ++ (T.into_runtime_event (something_stored something who) ∷ []))
  unfolding do_something
  do_something_stores origin something s {who} signed later =
      let e = T.into_runtime_event (something_stored something who) in
      let fresh : L.block_number (T.put something s) ≢ 0 =
        λ z. later (rw (← L.block_number-put something s) z) in
      rw signed (
        refl,
        rw (L.get-deposit e (T.put something s)) (L.get-put something s),
        rw (L.events-deposit e (T.put something s) fresh) (rw L.events-put),
      )

  -- A signed `cause_error` on a stored value below `u32::MAX` succeeds and stores the next value;
  -- it leaves the events alone.
  cause_error_increments :
      (origin : T.OriginFor) (old : ℕ) (s : T.State) {who : T.AccountId}
      → T.ensure_signed origin ≡ ok who
      → T.get s ≡ some old
      → old < u32_max
      → let (r, s') = cause_error T origin s in
        (r ≡ ok tt) × (T.get s' ≡ some (old + 1)) × (L.events s' ≡ L.events s)
  unfolding cause_error
  cause_error_increments origin old s signed stored below =
      rw (signed, stored) (ground (arith, L.get-put (old + 1) s, L.events-put (old + 1) s))

-- A call that returns an error has changed nothing: neither the storage nor the events.
pub dispatch_atomic :
    (T : Config) (call : Call) (origin : T.OriginFor) (s : T.State) (e : T.DispatchError)
    → (dispatch T call origin s).0 ≡ err e
    → (dispatch T call origin s).1 ≡ s
unfolding dispatch
dispatch_atomic T (do_something_call something) origin s e failed = ground arith
dispatch_atomic T cause_error_call origin s e failed = ground arith

-- The value in storage, if there is one, is a `u32`.
abbrev pub IsU32 : Option ℕ → Type 0
IsU32 none = Unit
IsU32 (some n) = n ≤ u32_max

-- The result and the state of each branch of the two calls, as equations.
module _ (T : Config) (origin : T.OriginFor) (s : T.State) where
  pub do_something-signed :
      (something : ℕ) {who : T.AccountId}
      → T.ensure_signed origin ≡ ok who
      → do_something T origin something s ≡ (
        ok tt,
        T.system_deposit_event
            (T.into_runtime_event (something_stored something who))
            (T.put something s),
      )
  unfolding do_something
  do_something-signed something signed = rw signed

  pub cause_error-below :
      {old : ℕ} {who : T.AccountId}
      → T.ensure_signed origin ≡ ok who
      → T.get s ≡ some old
      → old < u32_max
      → cause_error T origin s ≡ (ok tt, T.put (old + 1) s)
  unfolding cause_error
  cause_error-below signed stored below = rw (signed, stored) (ground arith)

  pub cause_error-above :
      {old : ℕ} {who : T.AccountId}
      → T.ensure_signed origin ≡ ok who
      → T.get s ≡ some old
      → u32_max ≤ old
      → cause_error T origin s ≡ (err (T.into_dispatch_error storage_overflow), s)
  unfolding cause_error
  cause_error-above signed stored above = rw (signed, stored) (ground arith)

  pub cause_error-none :
      {who : T.AccountId}
      → T.ensure_signed origin ≡ ok who
      → T.get s ≡ none
      → cause_error T origin s ≡ (err (T.into_dispatch_error none_value), s)
  unfolding cause_error
  cause_error-none signed absent = rw (signed, absent)

  -- A call from an origin that is not signed returns the error of `ensure_signed`, and changes
  -- nothing.
  pub dispatch_unsigned :
      (call : Call) (e : T.DispatchError)
      → T.ensure_signed origin ≡ err e
      → dispatch T call origin s ≡ (err e, s)
  unfolding dispatch
  dispatch_unsigned (do_something_call something) e unsigned = rw unsigned
  dispatch_unsigned cause_error_call e unsigned = rw unsigned

module _ (T : Config) (L : IsLawful T) (origin : T.OriginFor) (s : T.State) where
  -- A signed `cause_error` succeeds exactly when a value below `u32::MAX` is stored, returns
  -- `NoneValue` exactly when none is stored, and `StorageOverflow` exactly when `u32::MAX` is.
  pub cause_error_outcomes :
      {who : T.AccountId}
      → T.ensure_signed origin ≡ ok who
      → IsU32 (T.get s)
      → let r = (cause_error T origin s).0 in
        ((r ≡ ok tt) ↔ ((old : ℕ) × (T.get s ≡ some old) × (old < u32_max)))
        × ((r ≡ err (T.into_dispatch_error none_value)) ↔ (T.get s ≡ none))
        × ((r ≡ err (T.into_dispatch_error storage_overflow)) ↔ (T.get s ≡ some u32_max))
  cause_error_outcomes signed range = elim (Option-cases (T.get s)) [
    | inl absent ↦ rw (cause_error-none T origin s signed absent) (
      (λ h. cc, λ (old, h, _). cc),
      (λ _. absent, λ _. refl),
      (λ h. absurd (L.into_dispatch_error-injective (ground arith)), λ h. cc),
    )
    | inr (old, stored) ↦ elim (dec_lt old u32_max) [
      | yes below ↦
          rw (cause_error-below T origin s signed stored below) (
            (λ _. (old, stored, below), λ _. refl),
            (λ h. cc, λ h. cc),
            (λ h. cc, λ h. ground arith),
          )
      | no above ↦ rw (cause_error-above T origin s signed stored (omega arith)) (
        (λ h. cc, λ (n, h, below). ground arith),
        (λ h. absurd (L.into_dispatch_error-injective (ground arith)), λ h. cc),
        (λ _. ground arith, λ _. refl),
      )
    ]
  ]

  -- With an argument that is a `u32`, every call keeps the stored value a `u32`.
  pub dispatch-IsU32 :
      (call : Call) → InRange call → IsU32 (T.get s) → IsU32 (T.get (dispatch T call origin s).1)
  unfolding dispatch
  dispatch-IsU32 (do_something_call something) arg range =
      elim (Result-cases (T.ensure_signed origin)) [
        | inl (who, e) ↦ rw (e, L.get-deposit, L.get-put) arg
        | inr (x, e) ↦ rw e range
      ]
  dispatch-IsU32 cause_error_call arg range = elim (Result-cases (T.ensure_signed origin)) [
    | inl (who, e) ↦ elim (Option-cases (T.get s)) [
      | inl absent ↦ rw (e, absent) range
      | inr (old, stored) ↦ elim (dec_lt old u32_max) [
        | yes below ↦ rw (cause_error-below T origin s e stored below, L.get-put) (omega arith)
        | no above ↦ rw (cause_error-above T origin s e stored (omega arith)) range
      ]
    ]
    | inr (x, e) ↦ rw e range
  ]

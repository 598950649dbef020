-- ===== src/Template/Mock.antt =====
-- The unit tests of pallets/template/src/tests.rs on the storage of pallets/template/src/mock.rs,
-- and the benchmarks that `impl_benchmark_test_suite!` adds to them.
mod Tests
pub mod Calls
use create_chain_substrate_n.Common.{
  ℕ, ◌≡◌, ◌≢◌, ap, arith, ◌∙◌, Result, ok, err, Effect, lift, gets, modify, ◌>>=◌, ◌>>◌, bind-ok,
  Option, none, some, List, [], ◌∷◌, ◌++◌, map, All, String, ◌<>◌, map_err, ◌==◌, if◌then◌else◌,
}
use create_chain_substrate_n.Template.{
  Config, IsLawful, something_stored, none_value, DispatchResult, do_something, cause_error,
}
use create_chain_substrate_n.Template.Calls.{do_something-signed, cause_error-none}
use create_chain_substrate_n.Template.Benchmarks.{
  benchmark_do_something, benchmark_cause_error, benchmarks_pass,
}

-- A piece of a test: it may panic with a message.
abbrev pub Test : Config → Type 0
Test T = Effect T.State String (Unit {0})

-- What the tests use of frame_support, frame_system and frame_benchmarking.
pub record MockApi (T : Config) : Type 1 where
  pub account : ℕ → T.AccountId
  pub whitelisted_caller : T.AccountId
  pub signed : T.AccountId → T.OriginFor
  pub StorageError : Type 0
  pub debug : StorageError → String
  pub build_storage : Result StorageError T.State
  pub set_block_number : ℕ → T.State → T.State
  pub assert_ok : DispatchResult T → Test T
  pub assert_noop : DispatchResult T → T.DispatchError → Test T
  pub assert_last_event : T.RuntimeEvent → Test T

-- The documented behaviour: the default genesis builds a storage without a value; each assertion
-- passes where what it asserts is true.
pub record IsLawfulMock {T : Config} (L : IsLawful T) (M : MockApi T) : Type 0 where
  pub genesis : T.State
  pub build_storage_lem : M.build_storage ≡ ok genesis
  pub get-genesis : T.get genesis ≡ none
  pub ensure_signed-signed : (who : T.AccountId) → T.ensure_signed (M.signed who) ≡ ok who
  pub block_number-set : (n : ℕ) (s : T.State) → L.block_number (M.set_block_number n s) ≡ n
  pub assert_ok_lem :
      (call : DispatchResult T) {s s' : T.State}
      → call s ≡ (ok tt, s')
      → M.assert_ok call s ≡ (ok tt, s')
  pub assert_noop_lem :
      (call : DispatchResult T) {e : T.DispatchError} {s : T.State}
      → call s ≡ (err e, s)
      → M.assert_noop call e s ≡ (ok tt, s)
  pub assert_last_event_lem :
      (before : List T.RuntimeEvent) {e : T.RuntimeEvent} {s : T.State}
      → L.events s ≡ before ++ (e ∷ [])
      → M.assert_last_event e s ≡ (ok tt, s)

-- `assert_eq!` on optional numbers.
abbrev pub assert_eq : Option ℕ → Option ℕ → Result String (Unit {0})
assert_eq none none = ok tt
assert_eq (some a) (some b) = if a == b then ok tt else err "assertion `left == right` failed"
assert_eq none (some b) = err "assertion `left == right` failed"
assert_eq (some a) none = err "assertion `left == right` failed"

module _ {T : Config} (M : MockApi T) where
  -- `result.unwrap()`
  abbrev unwrap : {A : Type 0} → Result M.StorageError A → Result String A
  unwrap r = map_err (λ e. "called `Result::unwrap()` on an `Err` value: " <> M.debug e) r

  abbrev pub new_test_ext : Result String T.State
  new_test_ext = unwrap M.build_storage

  abbrev on_storage : Test T → Result String T.State → Result String (Unit {0})
  on_storage test (ok s) = (test s).0
  on_storage test (err message) = err message

  -- `new_test_ext().execute_with(…)`
  abbrev pub execute_with : Test T → Result String (Unit {0})
  execute_with test = on_storage test new_test_ext

  abbrev pub assert_value : ℕ → Test T
  assert_value n = do value ← gets T.get; lift (assert_eq value (some n))

  abbrev pub it_works_for_default_value : Test T
  it_works_for_default_value = do
    modify (M.set_block_number 1)
    M.assert_ok (do_something T (M.signed (M.account 1)) 42)
    assert_value 42
    M.assert_last_event (T.into_runtime_event (something_stored 42 (M.account 1)))

  abbrev pub correct_error_for_none_value : Test T
  correct_error_for_none_value =
      M.assert_noop (cause_error T (M.signed (M.account 1))) (T.into_dispatch_error none_value)

  -- A benchmark, and the value that it asserts.
  abbrev pub verified : (T.OriginFor → DispatchResult T) → ℕ → Test T
  verified benchmark n = do M.assert_ok (benchmark (M.signed M.whitelisted_caller)); assert_value n

  -- All the tests, each on a storage of its own.
  abbrev pub tests : List (Test T)
  tests =
      it_works_for_default_value
      ∷ correct_error_for_none_value
      ∷ verified (benchmark_do_something T) 100
      ∷ verified (benchmark_cause_error T) 101
      ∷ []

module _ {T : Config} {L : IsLawful T} {M : MockApi T} (K : IsLawfulMock L M) where
  execute_with-ok :
      (test : Test T) {s : T.State} → test K.genesis ≡ (ok tt, s) → execute_with M test ≡ ok tt
  execute_with-ok test h =
      ap (λ r. on_storage M test (unwrap M r)) K.build_storage_lem ∙ ap (λ x. x.0) h

  assert_value-ok : (n : ℕ) {s : T.State} → T.get s ≡ some n → assert_value M n s ≡ (ok tt, s)
  assert_value-ok n h = rw h (ground arith)

  it_works-ok : (s : T.State) → (s' : T.State) × (it_works_for_default_value M s ≡ (ok tt, s'))
  it_works-ok s =
      let who = M.account 1 in
      let event = T.into_runtime_event (something_stored 42 who) in
      let s1 = M.set_block_number 1 s in
      let call = do_something T (M.signed who) 42 in
      let later : L.block_number (T.put 42 s1) ≢ 0 =
        omega (arith, L.block_number-put 42 s1, K.block_number-set 1 s) in
      (
        T.system_deposit_event event (T.put 42 s1),
        bind-ok (M.assert_ok call) (λ _. assert_value M 42 >> M.assert_last_event event)
              (K.assert_ok_lem call
                (do_something-signed T (M.signed who) s1 42 (K.ensure_signed-signed who)))
            ∙ bind-ok (assert_value M 42) (λ _. M.assert_last_event event)
                (assert_value-ok 42 (L.get-deposit event (T.put 42 s1) ∙ L.get-put 42 s1))
            ∙ K.assert_last_event_lem (L.events (T.put 42 s1))
                (L.events-deposit event (T.put 42 s1) later),
      )

  verified-ok :
      (benchmark : T.OriginFor → DispatchResult T) (n : ℕ) (s : T.State)
      → (benchmark (M.signed M.whitelisted_caller) s).0 ≡ ok tt
      → T.get (benchmark (M.signed M.whitelisted_caller) s).1 ≡ some n
      → (s' : T.State) × (verified M benchmark n s ≡ (ok tt, s'))
  verified-ok benchmark n s h v = (
    _,
    bind-ok (M.assert_ok (benchmark (M.signed M.whitelisted_caller))) (λ _. assert_value M n)
          (K.assert_ok_lem (benchmark (M.signed M.whitelisted_caller))
            (ap (λ r. (r, (benchmark (M.signed M.whitelisted_caller) s).1)) h))
        ∙ assert_value-ok n v,
  )

  -- Over any frame, both unit tests of the pallet pass, and both of its benchmarks: each from a new
  -- storage, without a panic.
  pub tests_pass : All (λ test. execute_with M test ≡ ok tt) (tests M)
  tests_pass =
      let who = M.account 1 in
      let (stored, value, raised, value') =
        benchmarks_pass T L (M.signed M.whitelisted_caller) K.genesis
          (K.ensure_signed-signed M.whitelisted_caller) in
      (
        execute_with-ok (it_works_for_default_value M) (it_works-ok K.genesis).1,
        (
          execute_with-ok (correct_error_for_none_value M) (
              K.assert_noop_lem (cause_error T (M.signed who)) (
                cause_error-none T (M.signed who) K.genesis (K.ensure_signed-signed who)
                  K.get-genesis)),
          (
            execute_with-ok (verified M (benchmark_do_something T) 100)
                (verified-ok (benchmark_do_something T) 100 K.genesis stored value).1,
            (
              execute_with-ok (verified M (benchmark_cause_error T) 101)
                  (verified-ok (benchmark_cause_error T) 101 K.genesis raised value').1,
              tt,
            ),
          ),
        ),
      )

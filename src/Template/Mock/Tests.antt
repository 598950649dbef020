-- ===== src/Template/Mock/Tests.antt =====
-- A concrete mock for the unit tests of the pallet, whose assertions run the call and compare.
use create_chain_substrate_n.Common.{
  ℕ, ◌≡◌, refl, Result, ok, err, Option, none, some, List, [], ◌∷◌, ◌++◌, Bool, true, false, ◌&&◌,
  String, ◌==◌, arith, All,
}
use create_chain_substrate_n.Template.{Event, something_stored, none_value, storage_overflow}
use create_chain_substrate_n.Template.Mock.{MockApi, IsLawfulMock, execute_with, tests, tests_pass}
use create_chain_substrate_n.Template.Tests.{
  signed, DispatchError, bad_origin, module_error, Storage, test, test-IsLawful,
}

abbrev same_value : Option ℕ → Option ℕ → Bool
same_value none none = true
same_value (some a) (some b) = a == b
same_value none (some b) = false
same_value (some a) none = false

abbrev same_error : DispatchError → DispatchError → Bool
same_error bad_origin bad_origin = true
same_error (module_error none_value) (module_error none_value) = true
same_error (module_error storage_overflow) (module_error storage_overflow) = true
same_error _ _ = false

abbrev same_event : Event ℕ → Event ℕ → Bool
same_event (something_stored a who) (something_stored b who') = (a == b) && (who == who')

abbrev ends_with : Event ℕ → List (Event ℕ) → Bool
ends_with e [] = false
ends_with e (x ∷ []) = same_event e x
ends_with e (x ∷ y ∷ rest) = ends_with e (y ∷ rest)

abbrev panic_unless : Bool → Result String (Unit {0})
panic_unless true = ok tt
panic_unless false = err "assertion failed"

-- Whether a call gave an error and left the storage as it was.
abbrev failed_with : DispatchError → Storage → Result DispatchError (Unit {0}) × Storage → Bool
failed_with e s (ok _, s') = false
failed_with e s (err x, s') =
    same_error e x && (same_value s.value s'.value && (s.number == s'.number))

abbrev succeeded : Result DispatchError (Unit {0}) → Bool
succeeded (ok _) = true
succeeded (err _) = false

abbrev mock : MockApi test
mock = record {
  account = λ n. n;
  whitelisted_caller = 7;
  signed = signed;
  StorageError = String;
  debug = λ e. e;
  build_storage = ok (record { value = none; number = 0; log = [] });
  set_block_number = λ n s. record s { number = n };
  assert_ok = λ call s. (panic_unless (succeeded (call s).0), (call s).1);
  assert_noop = λ call e s. (panic_unless (failed_with e s (call s)), (call s).1);
  assert_last_event = λ e s. (panic_unless (ends_with e s.log), s);
}

same_error_refl : (e : DispatchError) → same_error e e ≡ true
same_error_refl bad_origin = refl
same_error_refl (module_error none_value) = refl
same_error_refl (module_error storage_overflow) = refl

same_value_refl : (v : Option ℕ) → same_value v v ≡ true
same_value_refl none = refl
same_value_refl (some n) = ground arith

ends_with-last : (e : Event ℕ) (before : List (Event ℕ)) → ends_with e (before ++ (e ∷ [])) ≡ true
ends_with-last (something_stored a who) [] = ground arith
ends_with-last e (x ∷ []) = ends_with-last e []
ends_with-last e (x ∷ y ∷ rest) = ends_with-last e (y ∷ rest)

failed_with-same : (e : DispatchError) (s : Storage) → failed_with e s (err e, s) ≡ true
failed_with-same e s = ground (arith, same_error_refl e, same_value_refl s.value)

mock-IsLawful : IsLawfulMock test-IsLawful mock
mock-IsLawful = record {
  genesis = record { value = none; number = 0; log = [] };
  build_storage_lem = refl;
  get-genesis = refl;
  ensure_signed-signed = λ who. refl;
  block_number-set = λ n s. refl;
  assert_ok_lem = λ call h. rw h;
  assert_noop_lem = λ call {e} {s} h. rw (h, failed_with-same e s);
  assert_last_event_lem = λ before {e} h. rw (h, ends_with-last e before);
}

tests_pass_example : All (λ t. execute_with mock t ≡ ok tt) (tests mock)
tests_pass_example = tests_pass mock-IsLawful

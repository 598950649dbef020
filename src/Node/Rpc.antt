-- ===== src/Node/Rpc.antt =====
-- The RPC extensions of node/src/rpc.rs, over the modules of jsonrpsee.
use create_chain_substrate_n.Common.{
  ◌≡◌, sym, ap, ◌∙◌, subst, Result, ok, err, String, List, [], ◌∷◌, ◌++◌, All, IsIn,
}

-- What the file uses of other crates. `new` makes an empty module, and `merge` returns the module
-- with the methods of another, or refuses.
pub record RpcApi : Type 1 where
  pub Client : Type 0
  pub Pool : Type 0
  pub RpcModule : Type 0
  pub RegisterMethodError : Type 0
  pub new : RpcModule
  pub merge : RpcModule → RpcModule → Result RegisterMethodError RpcModule
  pub system_rpc : Client → Pool → RpcModule
  pub transaction_payment_rpc : Client → RpcModule

-- No method of the second list is in the first.
abbrev pub AreApart : List String → List String → Type 0
AreApart xs ys = All (λ y. ¬ IsIn y xs) ys

-- The documented behaviour of `merge`: it fails if a method is registered already.
pub record IsLawfulRpc (R : RpcApi) : Type 0 where
  pub methods : R.RpcModule → List String
  pub methods-new : methods R.new ≡ []
  pub merge_apart :
      (m n : R.RpcModule)
      → AreApart (methods m) (methods n)
      → (k : R.RpcModule) × (R.merge m n ≡ ok k) × (methods k ≡ methods m ++ methods n)
  pub merge_clash :
      (m n : R.RpcModule)
      → (¬ AreApart (methods m) (methods n))
      → (e : R.RegisterMethodError) × (R.merge m n ≡ err e)

-- `struct FullDeps<C, P>`
pub record FullDeps (R : RpcApi) : Type 0 where
  pub client : R.Client
  pub pool : R.Pool

module _ (R : RpcApi) where
  infixl 5 ◌>>=◌
  abbrev ◌>>=◌ :
      {A B : Type 0}
      → Result R.RegisterMethodError A
      → (A → Result R.RegisterMethodError B)
      → Result R.RegisterMethodError B
  ok a >>= f = f a
  err e >>= f = err e

  pub create_full : FullDeps R → Result R.RegisterMethodError R.RpcModule
  create_full deps = do
    with_system ← R.merge R.new (R.system_rpc deps.client deps.pool)
    with_payment ← R.merge with_system (R.transaction_payment_rpc deps.client)
    ok with_payment

module _ (R : RpcApi) (L : IsLawfulRpc R) where
  none-IsIn : (ys : List String) → AreApart [] ys
  none-IsIn [] = tt
  none-IsIn (y ∷ ys) = (λ m. m, none-IsIn ys)

  -- If the system methods and the payment methods have no name in common, `create_full` succeeds
  -- and serves the system methods followed by the payment methods; otherwise it fails.
  pub create_full_methods :
      (deps : FullDeps R)
      → let system = L.methods (R.system_rpc deps.client deps.pool) in
        let payment = L.methods (R.transaction_payment_rpc deps.client) in
        (AreApart system payment
          → (m : R.RpcModule) × (create_full R deps ≡ ok m) × (L.methods m ≡ system ++ payment))
        × ((¬ AreApart system payment) → (e : R.RegisterMethodError) × (create_full R deps ≡ err e))
  unfolding create_full
  create_full_methods deps =
      let system = R.system_rpc deps.client deps.pool in
      let payment = R.transaction_payment_rpc deps.client in
      let (m, made, listed) = L.merge_apart R.new system (
        subst (λ xs. AreApart xs (L.methods system)) (sym L.methods-new)
          (none-IsIn (L.methods system))) in
      let same : L.methods m ≡ L.methods system =
        listed ∙ ap (λ xs. xs ++ L.methods system) L.methods-new in
      (
        λ apart.
            let (k, merged, all) =
              L.merge_apart m payment
                (subst (λ xs. AreApart xs (L.methods payment)) (sym same) apart) in
            (k, rw (made, merged), all ∙ ap (λ xs. xs ++ L.methods payment) same),
        λ clash.
            let (e, refused) =
              L.merge_clash m payment
                (λ h. clash (subst (λ xs. AreApart xs (L.methods payment)) same h)) in
            (e, rw (made, refused)),
      )

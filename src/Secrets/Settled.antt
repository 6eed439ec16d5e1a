-- ===== src/Secrets/Settled.antt =====
-- Resolved secrets.
use switch_configurator.Prelude.{
  ℕ, suc, ◌≡◌, refl, subst, true, false, ◌||◌, Option, none, some, List, [], ◌∷◌, ◌++◌, Text, codes,
  text_eq, nat_beq, is_empty, any, contains, arith, ==_iff, inl, inr, ◌⊎◌,
}
use switch_configurator.Prelude.Str.{is_control}
use switch_configurator.Prelude.Decimal.{to_string}
use switch_configurator.Models.Snmp.{SnmpCommunity, SnmpReadsMode}
use switch_configurator.Config.Result.{ok, ◌>>=◌, >>=-eq_ok, ok_inj}
use switch_configurator.Secrets.{
  Files, SecretContext, validate_value, join, read_secret_file, read_credential, secret_of,
  register_secret, use_secret, resolve_community, resolve_list, resolve_own,
}

-- a value that can stand on a command line
abbrev pub IsUsable : Text → Type 0
IsUsable s = (is_empty s ≡ false) × (any (λ c. nat_beq c b'"' || is_control c) s ≡ false)

validate_value-IsUsable :
    (raw label : Text) {v : Text} → validate_value raw label ≡ ok v → IsUsable v
unfolding validate_value
validate_value-IsUsable raw label h = (ground arith, ground arith)

module _ (files : Files) (ctx : SecretContext) where
  file-IsUsable :
      (path label : Text) {v : Text} → read_secret_file files path label ≡ ok v → IsUsable v
  unfolding read_secret_file
  file-IsUsable path label {v} h = go (files path) refl
    where
      go : (o : Option Text) → files path ≡ o → IsUsable v
      go none e = ground (arith, e)
      go (some raw) e = validate_value-IsUsable raw label (ground (arith, e))

  credential-IsUsable :
      (id label : Text) {v : Text} → read_credential files ctx id label ≡ ok v → IsUsable v
  unfolding read_credential
  credential-IsUsable id label {v} h = go ctx.credentials_dir refl
    where
      go : (o : Option Text) → ctx.credentials_dir ≡ o → IsUsable v
      go none e = ground (arith, e)
      go (some dir) e = file-IsUsable (join dir id) label (ground (arith, e))

  secret_of-IsUsable :
      (label : Text) (file credential : Option Text) {v : Text}
      → secret_of files ctx label file credential ≡ ok (some v)
      → IsUsable v
  unfolding secret_of
  secret_of-IsUsable label (some path) credential h =
      let (v, hv, h') = >>=-eq_ok (read_secret_file files path label) (λ v. ok (some v)) h in
      subst IsUsable (ground (arith, h')) (file-IsUsable path label hv)
  secret_of-IsUsable label none (some id) h =
      let (v, hv, h') = >>=-eq_ok (read_credential files ctx id label) (λ v. ok (some v)) h in
      subst IsUsable (ground (arith, h')) (credential-IsUsable id label hv)
  secret_of-IsUsable label none none h = ground arith

  -- A community whose reference, if it has one, is read and stands in the registry.
  abbrev pub Settled : List Text → Text → SnmpCommunity → Type 0
  Settled registry label c =
      (secret_of files ctx label c.name_file c.name_credential ≡ ok none)
      ⊎ ((secret_of files ctx label c.name_file c.name_credential ≡ ok (some c.name))
          × (contains registry c.name ≡ true)
          × IsUsable c.name)

  settled_again :
      (registry : List Text) (label : Text) (c : SnmpCommunity)
      → Settled registry label c
      → resolve_community files ctx label c registry ≡ ok (c, registry)
  unfolding resolve_community use_secret register_secret
  settled_again registry label c (inl h) = rw h refl
  settled_again registry label c (inr (h, k, u)) = rw h (ground (arith, ==_iff c.name c.name))

  -- no value leaves the registry
  abbrev pub Grows : List Text → List Text → Type 0
  Grows old new = (v : Text) → contains old v ≡ true → contains new v ≡ true

  settled_grows :
      (old new : List Text) (label : Text) (c : SnmpCommunity)
      → Grows old new
      → Settled old label c
      → Settled new label c
  settled_grows old new label c g (inl h) = inl h
  settled_grows old new label c g (inr (h, k, u)) = inr (h, g c.name k, u)

  resolve_community-Settled :
      (label : Text) (c : SnmpCommunity) (registry : List Text) {x : SnmpCommunity × List Text}
      → resolve_community files ctx label c registry ≡ ok x
      → Settled x.1 label x.0 × Grows registry x.1
  unfolding resolve_community use_secret register_secret contains
  resolve_community-Settled label c registry {x} h =
      let (o, ho, h') =
        >>=-eq_ok (secret_of files ctx label c.name_file c.name_credential)
          (use_secret label c registry) h in
      go o ho h'
    where
      go :
          (o : Option Text)
          → secret_of files ctx label c.name_file c.name_credential ≡ ok o
          → use_secret label c registry o ≡ ok x
          → Settled x.1 label x.0 × Grows registry x.1
      go none ho h =
          subst (λ (x : SnmpCommunity × List Text). Settled x.1 label x.0 × Grows registry x.1)
            (ok_inj h) (inl ho, λ v k. k)
      go (some value) ho h =
          let usable = secret_of-IsUsable label c.name_file c.name_credential ho in
          subst (λ (x : SnmpCommunity × List Text). Settled x.1 label x.0 × Grows registry x.1)
            {x = (record c { name = value }, register_secret value registry)} {y = x} (ground arith)
            (inr (ho, ground (arith, ==_iff value value, usable.0), usable), λ v k. ground arith)

  abbrev pub SettledList : List Text → ℕ → List SnmpCommunity → Type 0
  SettledList registry i [] = Unit
  SettledList registry i (c ∷ cs) =
      Settled registry (codes "SNMP community #" ++ to_string i) c × SettledList registry (suc i) cs

  pub list_again :
      (registry : List Text) (i : ℕ) (cs : List SnmpCommunity)
      → SettledList registry i cs
      → resolve_list files ctx i cs registry ≡ ok (cs, registry)
  unfolding resolve_list
  list_again registry i [] h = refl
  list_again registry i (c ∷ cs) (hc, h) =
      rw
        (
          settled_again registry (codes "SNMP community #" ++ to_string i) c hc,
          list_again registry (suc i) cs h,
        )
        refl

  pub list-Grows :
      (old new : List Text) (i : ℕ) (cs : List SnmpCommunity)
      → Grows old new
      → SettledList old i cs
      → SettledList new i cs
  list-Grows old new i [] g h = tt
  list-Grows old new i (c ∷ cs) g (hc, h) = (
    settled_grows old new (codes "SNMP community #" ++ to_string i) c g hc,
    list-Grows old new (suc i) cs g h,
  )

  pub resolve_list-Settled :
      (i : ℕ) (cs : List SnmpCommunity) (registry : List Text) {x : List SnmpCommunity × List Text}
      → resolve_list files ctx i cs registry ≡ ok x
      → SettledList x.1 i x.0 × Grows registry x.1
  unfolding resolve_list
  resolve_list-Settled i [] registry h =
      subst (λ (x : List SnmpCommunity × List Text). SettledList x.1 i x.0 × Grows registry x.1)
        (ok_inj h) (tt, λ v k. k)
  resolve_list-Settled i (c ∷ cs) registry h =
      let label = codes "SNMP community #" ++ to_string i in
      let (first, hf, h₁) =
        >>=-eq_ok (resolve_community files ctx label c registry)
          (λ first.
            resolve_list files ctx (suc i) cs first.1 >>= λ rest. ok (first.0 ∷ rest.0, rest.1))
          h in
      let (rest, hr, h₂) =
        >>=-eq_ok (resolve_list files ctx (suc i) cs first.1)
          (λ rest. ok (first.0 ∷ rest.0, rest.1)) h₁ in
      let (settled, grows) = resolve_community-Settled label c registry hf in
      let (settled', grows') = resolve_list-Settled (suc i) cs first.1 hr in
      subst (λ (x : List SnmpCommunity × List Text). SettledList x.1 i x.0 × Grows registry x.1)
        (ok_inj h₂)
        (
          (settled_grows first.1 rest.1 label first.0 grows' settled, settled'),
          λ v k. grows' v (grows v k),
        )

  abbrev pub SettledOwn : List Text → SnmpReadsMode → Option SnmpCommunity → Type 0
  SettledOwn registry SnmpReadsMode.auto (some c) =
      Settled registry (codes "snmp.reads.community") c
  SettledOwn registry _ _ = Unit

  pub own_again :
      (registry : List Text) (mode : SnmpReadsMode) (o : Option SnmpCommunity)
      → SettledOwn registry mode o
      → resolve_own files ctx mode o registry ≡ ok (o, registry)
  unfolding resolve_own
  own_again registry SnmpReadsMode.auto none h = refl
  own_again registry SnmpReadsMode.off none h = refl
  own_again registry SnmpReadsMode.off (some c) h = refl
  own_again registry SnmpReadsMode.auto (some c) h =
      rw (settled_again registry (codes "snmp.reads.community") c h) refl

  pub resolve_own-Settled :
      (mode : SnmpReadsMode) (o : Option SnmpCommunity) (registry : List Text)
      {x : Option SnmpCommunity × List Text}
      → resolve_own files ctx mode o registry ≡ ok x
      → SettledOwn x.1 mode x.0 × Grows registry x.1
  unfolding resolve_own
  resolve_own-Settled SnmpReadsMode.auto none registry h =
      subst
        (λ (x : Option SnmpCommunity × List Text).
          SettledOwn x.1 SnmpReadsMode.auto x.0 × Grows registry x.1)
        (ok_inj h) (tt, λ v k. k)
  resolve_own-Settled SnmpReadsMode.off none registry h =
      subst
        (λ (x : Option SnmpCommunity × List Text).
          SettledOwn x.1 SnmpReadsMode.off x.0 × Grows registry x.1)
        (ok_inj h) (tt, λ v k. k)
  resolve_own-Settled SnmpReadsMode.off (some c) registry h =
      subst
        (λ (x : Option SnmpCommunity × List Text).
          SettledOwn x.1 SnmpReadsMode.off x.0 × Grows registry x.1)
        (ok_inj h) (tt, λ v k. k)
  resolve_own-Settled SnmpReadsMode.auto (some c) registry h =
      let label = codes "snmp.reads.community" in
      let (y, hy, h') =
        >>=-eq_ok (resolve_community files ctx label c registry) (λ y. ok (some y.0, y.1)) h in
      subst
        (λ (x : Option SnmpCommunity × List Text).
          SettledOwn x.1 SnmpReadsMode.auto x.0 × Grows registry x.1)
        (ok_inj h') (resolve_community-Settled label c registry hy)

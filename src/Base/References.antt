-- ===== src/Base/References.antt =====
-- src/YMBase.c: an object lives as long as there are references to it, and each type is freed by its own
-- function.
use yammer.Prelude.{
  Bool, true, false, abort, if◌then◌else◌, ℕ, ◌+◌, ◌-◌, ◌<◌, ◌≡◌, refl, ap, ◌∙◌, sym, ◌⊎◌, inl, inr,
  Outcome, ok, le→leb, ◌==◌, ==_ne, ==→eq, Bool-cases, subst, arith,
}
use yammer.Base.{
  ObjectType, type_id, free_type, Object, alloc, retain, Released, kept, freed, release,
}

-- Every type that an object is made with is freed with its own function.
pub free_type-type_id : (k : ObjectType) → free_type (type_id k) ≡ ok k
unfolding free_type type_id
free_type-type_id ObjectType.address = refl
free_type-type_id ObjectType.array = refl
free_type-type_id ObjectType.mdns_browser = refl
free_type-type_id ObjectType.connection = refl
free_type-type_id ObjectType.compression = refl
free_type-type_id ObjectType.task = refl
free_type-type_id ObjectType.pipe = refl
free_type-type_id ObjectType.lock = refl
free_type-type_id ObjectType.rsa_key_pair = refl
free_type-type_id ObjectType.mdns_service = refl
free_type-type_id ObjectType.number = refl
free_type-type_id ObjectType.local_socket_pair = refl
free_type-type_id ObjectType.semaphore = refl
free_type-type_id ObjectType.peer = refl
free_type-type_id ObjectType.security_provider = refl
free_type-type_id ObjectType.session = refl
free_type-type_id ObjectType.socket = refl
free_type-type_id ObjectType.stream = refl
free_type-type_id ObjectType.string = refl
free_type-type_id ObjectType.thread = refl
free_type-type_id ObjectType.dispatch_queue = refl
free_type-type_id ObjectType.tls_provider = refl
free_type-type_id ObjectType.plexer = refl
free_type-type_id ObjectType.x509_certificate = refl
free_type-type_id ObjectType.dictionary = refl

-- An object that so many references are held to: the first is the one that the allocation gives, each retain
-- adds one, and each release that keeps the object gives one back.
pub data Held (returns : ObjectType → Bool) : ℕ → Object → Type 0 where
  made : (k : ObjectType) → Held returns 1 (alloc (type_id k))
  retained : {n : ℕ} {o o' : Object} → retain o ≡ ok o' → Held returns n o → Held returns (n + 1) o'
  released :
      {n : ℕ} {o o' : Object}
      → release returns o ≡ ok (kept o')
      → Held returns n o
      → Held returns (n - 1) o'

-- The count is the number of references, and the type is one of the library's.
pub record IsCounted (n : ℕ) (o : Object) : Type 0 where
  pub count_is : o.retain_count ≡ n
  pub some_held : 0 < n
  pub kind : ObjectType
  pub id_is : o.id ≡ type_id kind

retain-ok :
    (o : Object)
    → 0 < o.retain_count
    → retain o ≡ ok (record o { retain_count = o.retain_count + 1 })
unfolding retain
retain-ok o h = simp (le→leb 1 o.retain_count (omega arith))

module _ (returns : ObjectType → Bool) where
  release-last :
      (o : Object) (k : ObjectType)
      → o.retain_count ≡ 1
      → o.id ≡ type_id k
      → release returns o ≡ (if returns k then ok (freed k) else abort)
  unfolding release
  release-last o k one is =
      let known : free_type o.id ≡ ok k = ap free_type is ∙ free_type-type_id k in
      simp (le→leb 1 o.retain_count (omega arith), one, known)

  release-other :
      (o : Object)
      → 1 < o.retain_count
      → release returns o ≡ ok (kept (record o { retain_count = o.retain_count - 1 }))
  unfolding release
  release-other o h =
      simp
        (le→leb 1 o.retain_count (omega arith), ==_ne o.retain_count 1 (λ e. absurd (omega arith)))

  not_kept :
      (b : Bool) (k : ObjectType) (o : Object)
      → ◌≡◌ {A = Outcome Released} (if b then ok (freed k) else abort) (ok (kept o))
      → ⊥
  not_kept true k o e = cc
  not_kept false k o e = cc

  IsCounted-retain :
      (n : ℕ) (o o' : Object) → retain o ≡ ok o' → IsCounted n o → IsCounted (n + 1) o'
  IsCounted-retain n o o' ran i =
      let more : Object = record o { retain_count = o.retain_count + 1 } in
      let e = sym (retain-ok o (omega (arith, i.count_is, i.some_held))) ∙ ran in
      let same : more ≡ o' = cc in
      subst (IsCounted (n + 1)) same (record {
        count_is = omega (arith, i.count_is);
        some_held = omega arith;
        kind = i.kind;
        id_is = i.id_is;
      })

  IsCounted-release :
      (n : ℕ) (o o' : Object)
      → release returns o ≡ ok (kept o')
      → IsCounted n o
      → IsCounted (n - 1) o'
  IsCounted-release n o o' ran i = elim (Bool-cases (n == 1)) [
    | inl last ↦
        let freed_now = release-last o i.kind (i.count_is ∙ ==→eq n 1 last) i.id_is in
        absurd (not_kept (returns i.kind) i.kind o' (sym freed_now ∙ ran))
    | inr others ↦
        let less : Object = record o { retain_count = o.retain_count - 1 } in
        let e = sym (release-other o (ground (arith, others, i.count_is, i.some_held))) ∙ ran in
        let same : less ≡ o' = cc in
        subst (IsCounted (n - 1)) same (record {
          count_is = omega (arith, i.count_is);
          some_held = ground (arith, others, i.some_held);
          kind = i.kind;
          id_is = i.id_is;
        })
  ]

  Held-IsCounted : {n : ℕ} {o : Object} → Held returns n o → IsCounted n o
  unfolding alloc
  Held-IsCounted (made k) = record {
    count_is = refl;
    some_held = omega arith;
    kind = k;
    id_is = refl;
  }
  Held-IsCounted (retained {n} {o} {o'} ran h) = IsCounted-retain n o o' ran (Held-IsCounted h)
  Held-IsCounted (released {n} {o} {o'} ran h) = IsCounted-release n o o' ran (Held-IsCounted h)

  -- An object that n references are held to, after whatever retains and releases, can be retained. A
  -- release keeps it if n is more than 1. If n is 1, the free function of its type is called with it:
  -- the object is freed if that returns, and the process is stopped if that stops it, and by nothing
  -- else.
  pub release_lem :
      (n : ℕ) (o : Object)
      → Held returns n o
      → (retain o ≡ ok (record o { retain_count = n + 1 }))
        × (((n ≡ 1)
              × ((k : ObjectType) × (o.id ≡ type_id k)
                  × (release returns o ≡ (if returns k then ok (freed k) else abort))))
            ⊎ ((1 < n) × (release returns o ≡ ok (kept (record o { retain_count = n - 1 })))))
  release_lem n o h =
      let i = Held-IsCounted h in
      (
        retain-ok o (omega (arith, i.count_is, i.some_held))
            ∙ ap (λ c. ok (record o { retain_count = c + 1 })) i.count_is,
        elim (Bool-cases (n == 1)) [
          | inl last ↦
              let e = ==→eq n 1 last in
              inl (e, (i.kind, i.id_is, release-last o i.kind (i.count_is ∙ e) i.id_is))
          | inr others ↦
              let more : 1 < n = ground (arith, others, i.some_held) in
              inr (
                more,
                release-other o (omega (arith, more, i.count_is))
                    ∙ ap (λ c. ok (kept (record o { retain_count = c - 1 }))) i.count_is,
              )
        ],
      )

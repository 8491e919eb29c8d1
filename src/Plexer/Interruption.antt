-- ===== src/Plexer/Interruption.antt =====
-- src/YMPlexer.c: what an interruption does, and what it leaves undone.
use yammer.Prelude.{
  ℕ, ◌≡◌, refl, ◌∙◌, Bool, true, false, ◌||◌, Option, none, some, List, [], ◌∷◌, ◌++◌, All, map, ok,
  ◌>>=◌, >>=-eq-ok, arith, if◌then◌else◌, ◌==◌, Bool-cases, inl, inr,
}
use mathlib.Core.List.{append_assoc, append-nil}
use yammer.Dictionary.{Item, Dictionary, enumerator_begin, check_consistency, first_item}
use yammer.Dictionary
use yammer.Dictionary.Keys.{IsValid}
use yammer.Dictionary.Lookup.{check-IsValid}
use yammer.Plexer.Link.{close}
use yammer.Plexer.State.{
  Plexer, StreamInfo, Action, retain_plexer, release_plexer, release_stream, called_interrupted,
  close_provider, join_events, no_objects, update, set_info, stream_info, note,
}
use yammer.Plexer.Streams.{interrupt, hang_up, destroy_sources}

-- The write end of a stream's upstream pipe is closed.
abbrev pub close_up : Option StreamInfo → Option StreamInfo
close_up none = none
close_up (some i) = some (record i { up_open = false })

abbrev pub is_listed : ℕ → List Item → Bool
is_listed s [] = false
is_listed s (e ∷ es) = s == e.value || is_listed s es

-- Every stream that the dictionary names has its user info.
abbrev pub IsPresent : (ℕ → Option StreamInfo) → Item → Type 0
IsPresent info e = (i : StreamInfo) × (info e.value ≡ some i)

abbrev hung : List Item → (ℕ → Option StreamInfo) → ℕ → Option StreamInfo
hung [] info = info
hung (e ∷ es) info = hung es (update info e.value (close_up (info e.value)))

close_up-present :
    (o : Option StreamInfo) (i : StreamInfo) → o ≡ some i → (j : StreamInfo) × (close_up o ≡ some j)
close_up-present none i e = absurd (cc)
close_up-present (some j) i e = (record j { up_open = false }, refl)

update-IsPresent :
    (info : ℕ → Option StreamInfo) (s : ℕ) (i : StreamInfo) (es : List Item)
    → All (IsPresent info) es
    → All (IsPresent (update info s (some i))) es
update-IsPresent info s i [] h = tt
update-IsPresent info s i (e ∷ es) h = (
  elim (Bool-cases (e.value == s)) [
    | inl same ↦ (i, rw same)
    | inr other ↦ (h.0.0, rw other h.0.1)
  ],
  update-IsPresent info s i es h.1,
)

hung_lem :
    (es : List Item) (info : ℕ → Option StreamInfo) (s : ℕ)
    → hung es info s ≡ (if is_listed s es then close_up (info s) else info s)
hung_lem [] info s = refl
hung_lem (e ∷ es) info s =
    ground (
      arith,
      hung_lem es (update info e.value (close_up (info e.value))) s,
      close_up_twice (info s),
    )
  where
    close_up_twice : (o : Option StreamInfo) → close_up (close_up o) ≡ close_up o
    close_up_twice none = refl
    close_up_twice (some i) = refl

releases : List Item → List Action
releases = map (λ e. release_stream e.value)

hang_up_lem :
    (es : List Item) (p : Plexer)
    → All (IsPresent p.info) es
    → hang_up es p ≡ ok (record p { info = hung es p.info; log = p.log ++ releases es })
unfolding hang_up releases
hang_up_lem [] p h = rw (append-nil p.log)
hang_up_lem (e ∷ es) p (here, others) =
    let (i, k) = here in
    let closed : StreamInfo = record i { up_open = false } in
    let q = note (set_info p e.value (some closed)) (release_stream e.value ∷ []) in
    let rest = hang_up_lem es q (update-IsPresent p.info e.value closed es others) in
    rw k (rest ∙ rw (append_assoc p.log (release_stream e.value ∷ []) (releases es)))

same_branches {ℓ} : {A : Type ℓ} (b : Bool) (x : A) → (if b then x else x) ≡ x
same_branches true x = refl
same_branches false x = refl

-- What the client is told: `interrupted` is called if it is set.
abbrev pub told : Bool → List Action
told set = if set then retain_plexer ∷ called_interrupted ∷ release_plexer ∷ [] else []

told-append :
    (set : Bool) (p : Plexer)
    → (if set then note p (retain_plexer ∷ called_interrupted ∷ release_plexer ∷ []) else p)
      ≡ note p (told set)
told-append true p = refl
told-append false p = rw (append-nil p.log)

enumerates : (d : Dictionary) → IsValid no_objects d → enumerator_begin d ≡ ok (first_item d.items)
unfolding enumerator_begin
enumerates d v = rw (check-IsValid no_objects d v)

-- The first interruption of an active plexer, whose dictionary is valid and names streams with their
-- user info, empties the dictionary and hangs up every stream that was in it, and no other stream.
-- Its calls are: the provider is closed, each such stream is released once, the client is told if
-- it asked to be, and the event queue is joined. A further interruption changes nothing and answers
-- false.
pub interrupt_once :
    (p : Plexer)
    → p.active ≡ true
    → IsValid no_objects p.streams_by_id
    → All (IsPresent p.info) p.streams_by_id.items
    → (p' : Plexer) × (interrupt p ≡ ok (p', true))
      × (p'.active ≡ false)
      × (p'.streams_by_id ≡ Dictionary.create)
      × ((s : ℕ)
          → p'.info s
            ≡ (if is_listed s p.streams_by_id.items then close_up (p.info s) else p.info s))
      × (p'.log
          ≡ p.log
            ++ (close_provider ∷ map (λ e. release_stream e.value) p.streams_by_id.items
                ++ (told p.interrupted_func ++ join_events ∷ [])))
      × (interrupt p' ≡ ok (p', false))
unfolding interrupt destroy_sources close releases
interrupt_once p a v h =
    let items = p.streams_by_id.items in
    let closed = note (record p { active = false }) (close_provider ∷ []) in
    let hung_up = record closed {
      info = hung items p.info;
      log = closed.log ++ releases items;
      streams_by_id = Dictionary.create;
    } in
    let done = note (note hung_up (told p.interrupted_func)) (join_events ∷ []) in
    (
      done,
      simp (
        a,
        same_branches p.upstream_source (ok (record p { active = false })),
        enumerates p.streams_by_id v,
        hang_up_lem items closed h,
        told-append p.interrupted_func hung_up,
      ),
      refl,
      refl,
      hung_lem items p.info,
      simp append_assoc,
      refl,
    )

abbrev SameSources : Plexer → Plexer → Type 0
SameSources q p =
    (q.upstream_source ≡ p.upstream_source) × (q.downstream_sources ≡ p.downstream_sources)

hang_up_sources : (es : List Item) (p : Plexer) {q : Plexer} → hang_up es p ≡ ok q → SameSources q p
unfolding hang_up
hang_up_sources [] p e = ground arith
hang_up_sources (x ∷ es) p {q} e =
    let (i, _, next) = >>=-eq-ok (stream_info p x.value) _ e in hang_up_sources es _ next

-- An interruption that returns leaves the upstream source and every downstream source as they are.
pub interrupt_keeps_sources :
    (p : Plexer) {p' : Plexer} {first : Bool}
    → interrupt p ≡ ok (p', first)
    → (p'.upstream_source ≡ p.upstream_source) × (p'.downstream_sources ≡ p.downstream_sources)
unfolding interrupt destroy_sources
interrupt_keeps_sources p {p'} {first} e = elim (Bool-cases p.active) [
  | inl a ↦
      let off = record p { active = false } in
      let closed = note (record off { link = (close p.link).1 }) (close_provider ∷ []) in
      let run : (enumerator_begin p.streams_by_id >>= λ x.
      hang_up p.streams_by_id.items closed >>= λ hung. ok (
        note
            (if hung.interrupted_func
              then note (record hung { streams_by_id = Dictionary.create })
                  (retain_plexer ∷ called_interrupted ∷ release_plexer ∷ [])
              else record hung { streams_by_id = Dictionary.create })
            (join_events ∷ []),
        true,
      ))
          ≡ ok (p', first) =
        simp (a, same_branches p.upstream_source (ok off)) at e in
      let (x, _, next) = >>=-eq-ok (enumerator_begin p.streams_by_id) _ run in
      let (hung, h, last) = >>=-eq-ok (hang_up p.streams_by_id.items closed) _ next in
      ground (arith, hang_up_sources p.streams_by_id.items closed h)
  | inr a ↦ ground arith
]

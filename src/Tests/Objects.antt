-- ===== src/Tests/Objects.antt =====
-- src/YMBase.c on the main queue, whose last reference must not be given back.
use yammer.Prelude.{ℕ, Bool, true, false, ◌+◌, ◌-◌, ◌<◌, ◌≡◌, ◌⊎◌, ok, abort, if◌then◌else◌}
use yammer.Base.{ObjectType, dispatch_queue, type_id, Object, alloc, retain, kept, freed, release}
use yammer.Base.References.{Held, release_lem}

abbrev main_queue : Object
main_queue = record { id = 113; retain_count = 1 }

abbrev references : ℕ
references = 1

-- _YMDispatchQueueFree, and the free functions of the other types, which are not called.
abbrev not_main : ObjectType → Bool
not_main dispatch_queue = false
not_main other = true

main_queue-Held : Held not_main references main_queue
unfolding alloc type_id
main_queue-Held = Held.made dispatch_queue

release_example :
    (retain main_queue ≡ ok (record main_queue { retain_count = references + 1 }))
    × (((references ≡ 1)
          × ((k : ObjectType) × (main_queue.id ≡ type_id k)
              × (release not_main main_queue ≡ (if not_main k then ok (freed k) else abort))))
        ⊎ ((1 < references)
            × (release not_main main_queue
                ≡ ok (kept (record main_queue { retain_count = references - 1 })))))
release_example = release_lem not_main references main_queue main_queue-Held

-- ===== src/Base.antt =====
-- src/YMBase.c: the objects of the library, whose references are counted, and what a type is freed with and
-- compared with. A count is a number without a bound: more than 2^31 - 1 references to an object are
-- outside of this.
pub mod References
use yammer.Prelude.{
  ℕ, zero, suc, ◌+◌, ◌-◌, Bool, true, false, not, Option, none, some, Outcome, ok, abort, ymassert,
  ◌>>=◌, ◌>>◌, if◌then◌else◌, leb, ◌==◌,
}

-- The types, each of which names its free function.
pub data ObjectType : Type 0 where
  address array mdns_browser connection compression task pipe lock rsa_key_pair mdns_service :
      ObjectType
  number local_socket_pair semaphore peer security_provider session socket stream string :
      ObjectType
  thread dispatch_queue tls_provider plexer x509_certificate dictionary : ObjectType

-- The YMTypeIDs, which are characters.
unfoldable pub type_id : ObjectType → ℕ
type_id address = 97
type_id array = 65
type_id mdns_browser = 98
type_id connection = 99
type_id compression = 67
type_id task = 102
type_id pipe = 105
type_id lock = 107
type_id rsa_key_pair = 75
type_id mdns_service = 109
type_id number = 110
type_id local_socket_pair = 111
type_id semaphore = 112
type_id peer = 80
type_id security_provider = 118
type_id session = 115
type_id socket = 79
type_id stream = 114
type_id string = 83
type_id thread = 116
type_id dispatch_queue = 113
type_id tls_provider = 84
type_id plexer = 120
type_id x509_certificate = 88
type_id dictionary = 121

-- __YMFree: the type whose free function is called.
unfoldable pub free_type : ℕ → Outcome ObjectType
free_type id =
    if id == 105
    then ok pipe
    else (if id == 114
        then ok stream
        else (if id == 99
            then ok connection
            else (if id == 118
                then ok security_provider
                else (if id == 120
                    then ok plexer
                    else (if id == 115
                        then ok session
                        else (if id == 109
                            then ok mdns_service
                            else (if id == 98
                                then ok mdns_browser
                                else (if id == 116
                                    then ok thread
                                    else (if id == 113
                                        then ok dispatch_queue
                                        else (if id == 107
                                            then ok lock
                                            else (if id == 112
                                                then ok semaphore
                                                else (if id == 121
                                                    then ok dictionary
                                                    else (if id == 75
                                                        then ok rsa_key_pair
                                                        else (if id == 88
                                                            then ok x509_certificate
                                                            else (if id == 84
                                                            then ok tls_provider
                                                            else (if id == 111
                                                            then ok local_socket_pair
                                                            else (if id == 97
                                                            then ok address
                                                            else (if id == 80
                                                            then ok peer
                                                            else (if id == 83
                                                            then ok string
                                                            else (if id == 102
                                                            then ok task
                                                            else (if id == 65
                                                            then ok array
                                                            else (if id == 67
                                                            then ok compression
                                                            else (if id == 79
                                                            then ok socket
                                                            else (if id == 110
                                                            then ok number
                                                            else (abort)))))))))))))))))))))))))

-- __ym_type
pub record Object : Type 0 where
  pub id : ℕ
  pub retain_count : ℕ

-- _YMAlloc
unfoldable pub alloc : ℕ → Object
alloc id = record { id = id; retain_count = 1 }

-- YMRetain
unfoldable pub retain : Object → Outcome Object
retain o = do ymassert (leb 1 o.retain_count); ok (record o { retain_count = o.retain_count + 1 })

-- What a release leaves: the object, or that it was freed.
pub data Released : Type 0 where
  kept : Object → Released
  freed : ObjectType → Released

-- The call of the free function.
abbrev pub free_object : (ObjectType → Bool) → Outcome ObjectType → Outcome Released
free_object returns abort = abort
free_object returns (ok k) = if returns k then ok (freed k) else abort

-- YMRelease, of an object that is not NULL. `returns` is whether the free function of a type returns when it is called
-- with this object: _YMDispatchQueueFree stops the process for the main and the global queue.
unfoldable pub release : (ObjectType → Bool) → Object → Outcome Released
release returns o = do
  ymassert (leb 1 o.retain_count)
  let rest = ok (kept (record o { retain_count = o.retain_count - 1 }))
  if o.retain_count == 1 then free_object returns (free_type o.id) else rest

module _ (string_equals address_is_equal : ℕ → ℕ → Bool) (type_of : ℕ → ℕ) where
  -- YMIsEqual of two pointers; `type_of` reads the type of an object.
  unfoldable pub is_equal : ℕ → ℕ → Outcome Bool
  is_equal a b =
      let addresses = if type_of a == 97 then ok (address_is_equal a b) else abort in
      let compared = if type_of a == 83 then ok (string_equals a b) else addresses in
      let same_type = if type_of a == type_of b then compared else ok false in
      if a == 0 then ok false else (if b == 0 then ok false else same_type)

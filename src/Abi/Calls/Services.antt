-- ===== src/Abi/Calls/Services.antt =====
-- The environment, as a function reads it: `env::get` over the host functions.
use fx.Prelude.{
  ℕ, ◌+◌, ◌≤◌, ◌<◌, ◌≡◌, ◌⊎◌, none, some, String, ok, length, arith, ◌∙◌, Option-cases, inl, inr,
  string_eq,
}
use fx.Prelude.Dict.{lookup}
use fx.Abi.Memory.{Bytes, u64_mod, take, drop, overwrite, from_caller}
use fx.Abi.Memory.Bounds.{length-overwrite, overwritten, untouched, slice_bounds}
use fx.Abi.Layout.{word_bytes}
use fx.Abi.State.{Host, FunctionInstanceState}
use fx.Abi.Handlers.{respond}
use fx.Abi.Handlers.Services.{request_slice, fx_env_len_handler, fx_env_get_handler}
use fx.Abi.Sdk.{zeros}
use fx.Abi.Sdk.Services.{env_get}
use fx.Abi.Calls.{at, copy-fits, length-zeros, respond-write_struct}
use fx.Abi.Transfer.{word_at}

-- These bytes stand at the address.
abbrev pub Holds : Bytes → ℕ → Bytes → Type 0
Holds view addr bytes =
    (addr + length bytes ≤ length view) × (take (length bytes) (drop addr view) ≡ bytes)

-- Two ranges do not meet.
abbrev pub Apart : ℕ → ℕ → ℕ → ℕ → Type 0
Apart p m q n = (p + m ≤ q) ⊎ (q + n ≤ p)

pub overwrite-Holds :
    (view : Bytes) (addr : ℕ) (bytes : Bytes) (p : ℕ) (bs : Bytes)
    → Holds view addr bytes
    → Apart addr (length bytes) p (length bs)
    → Holds (overwrite p bs view) addr bytes
overwrite-Holds view addr bytes p bs h apart = (
  omega (arith, length-overwrite p bs view, h.0),
  untouched addr (length bytes) p bs view apart ∙ h.1,
)

module _ {host : Host} (view : Bytes) (s : FunctionInstanceState host)
    (hv : length view < u64_mod) where
  pub request_slice-Holds :
      (addr : ℕ) (bytes : Bytes)
      → Holds view addr bytes
      → request_slice (at view s) addr (length bytes) ≡ some bytes
  unfolding from_caller
  request_slice-Holds addr bytes h = ground (
    arith,
    slice_bounds view addr (length bytes) hv (omega (arith, h.0)) (omega (arith, h.0)),
    h.0,
    h.1,
  )

  module _ (key : String) (key_addr : ℕ) (utf8 : host.from_utf8 (host.as_bytes key) ≡ some key)
      (there : Holds view key_addr (host.as_bytes key)) where
    pub env_len-found :
        (value : String) (slot : ℕ)
        → lookup key s.env ≡ some value
        → slot + 8 ≤ length view
        → fx_env_len_handler (at view s) key_addr (length (host.as_bytes key)) slot
          ≡ some (at (overwrite slot (word_bytes (length (host.as_bytes value))) view) s, 0)
    unfolding fx_env_len_handler word_bytes
    env_len-found value slot h fits = ground (
      arith,
      request_slice-Holds key_addr (host.as_bytes key) there,
      utf8,
      h,
      respond-write_struct view s hv 0 1 4 slot (word_bytes (length (host.as_bytes value))) fits,
    )

    pub env_len-missing :
        (slot : ℕ)
        → lookup key s.env ≡ none
        → fx_env_len_handler (at view s) key_addr (length (host.as_bytes key)) slot
          ≡ some (at view s, 3)
    unfolding fx_env_len_handler
    env_len-missing slot h =
        ground (arith, request_slice-Holds key_addr (host.as_bytes key) there, utf8, h)

    pub env_get-found :
        (value : String) (addr : ℕ)
        → lookup key s.env ≡ some value
        → addr + length (host.as_bytes value) ≤ length view
        → fx_env_get_handler (at view s) key_addr (length (host.as_bytes key)) addr
          ≡ some (at (overwrite addr (host.as_bytes value) view) s, 0)
    unfolding fx_env_get_handler respond from_caller
    env_get-found value addr h fits = ground (
      arith,
      request_slice-Holds key_addr (host.as_bytes key) there,
      utf8,
      h,
      copy-fits view addr (host.as_bytes value) hv fits,
    )

module _ {host : Host} (slot : ℕ) (buffer : ℕ → ℕ) (view : Bytes) (s : FunctionInstanceState host)
    (hv : length view < u64_mod) (key : String) (key_addr : ℕ)
    (utf8 : host.from_utf8 (host.as_bytes key) ≡ some key)
    (there : Holds view key_addr (host.as_bytes key)) (hs : slot + 8 ≤ length view)
    (apart : Apart key_addr (length (host.as_bytes key)) slot 8) where
  abbrev zeroed : Bytes
  zeroed = overwrite slot (zeros 8) view

  length-zeroed : length zeroed ≡ length view
  length-zeroed = length-overwrite slot (zeros 8) view

  zeroed-Holds : Holds zeroed key_addr (host.as_bytes key)
  zeroed-Holds = overwrite-Holds view key_addr (host.as_bytes key) slot (zeros 8) there apart

  pub env_get-absent :
      lookup key s.env ≡ none
      → env_get slot buffer (at view s) key_addr (length (host.as_bytes key))
        ≡ some (at zeroed s, ok none)
  unfolding env_get
  env_get-absent h =
      ground (
        arith,
        env_len-missing zeroed s (rw length-zeroed hv) key key_addr utf8 zeroed-Holds slot h,
      )

  module _ (value : String) (h : lookup key s.env ≡ some value)
      (utf8_value : host.from_utf8 (host.as_bytes value) ≡ some value)
      (fits : buffer (length (host.as_bytes value)) + length (host.as_bytes value) ≤ length view)
      (clear : Apart key_addr
        (length (host.as_bytes key))
        (buffer (length (host.as_bytes value)))
        (length (host.as_bytes value))) where
    abbrev raw : Bytes
    raw = host.as_bytes value

    abbrev measured : Bytes
    measured = overwrite slot (word_bytes (length raw)) zeroed

    abbrev prepared : Bytes
    prepared = overwrite (buffer (length raw)) (zeros (length raw)) measured

    length-measured : length measured ≡ length view
    length-measured = rw length-overwrite length-zeroed

    length-prepared : length prepared ≡ length view
    length-prepared = rw length-overwrite length-measured

    measured-Holds : Holds measured key_addr (host.as_bytes key)
    unfolding word_bytes
    measured-Holds =
        overwrite-Holds zeroed key_addr (host.as_bytes key) slot (word_bytes (length raw))
          zeroed-Holds apart

    prepared-Holds : Holds prepared key_addr (host.as_bytes key)
    prepared-Holds =
        overwrite-Holds measured key_addr (host.as_bytes key) (buffer (length raw))
          (zeros (length raw)) measured-Holds (rw (length-zeros (length raw)) clear)

    pub env_get-present :
        env_get slot buffer (at view s) key_addr (length (host.as_bytes key))
        ≡ some (at (overwrite (buffer (length raw)) raw prepared) s, ok (some value))
    unfolding env_get
    env_get-present = ground (
      arith,
      env_len-found zeroed s (rw length-zeroed hv) key key_addr utf8 zeroed-Holds value slot h
          (rw length-zeroed hs),
      word_at zeroed slot (length raw) (rw length-zeroed hs) (omega arith),
      env_get-found prepared s (rw length-prepared hv) key key_addr utf8 prepared-Holds value
          (buffer (length raw)) h (rw length-prepared fits),
      overwritten (buffer (length raw)) raw prepared (rw length-prepared fits),
      utf8_value,
    )

  -- Where the key and the value read back from their bytes, `env::get` of a function gives exactly
  -- the value that the host holds under the key, or `None` where it holds none, and changes nothing
  -- of the instance but its memory; for a key that lies in the memory, where the result's slot and
  -- the vector lie inside it and neither meets the key.
  pub env_get-lookup :
      ((value : String)
        → lookup key s.env ≡ some value
        → host.from_utf8 (host.as_bytes value) ≡ some value)
      → ((value : String)
          → lookup key s.env ≡ some value
          → buffer (length (host.as_bytes value)) + length (host.as_bytes value) ≤ length view)
      → ((value : String)
          → lookup key s.env ≡ some value
          → Apart key_addr
              (length (host.as_bytes key))
              (buffer (length (host.as_bytes value)))
              (length (host.as_bytes value)))
      → (view' : Bytes) × (env_get slot buffer (at view s) key_addr (length (host.as_bytes key))
          ≡ some (at view' s, ok (lookup key s.env)))
  env_get-lookup text fits clear = elim (Option-cases (lookup key s.env)) [
    | inl h ↦ (zeroed, rw h (env_get-absent h))
    | inr (value, h) ↦ (
      overwrite (buffer (length (host.as_bytes value))) (host.as_bytes value)
          (prepared value h (text value h) (fits value h) (clear value h)),
      rw h (env_get-present value h (text value h) (fits value h) (clear value h)),
    )
  ]

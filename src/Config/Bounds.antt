-- ===== src/Config/Bounds.antt =====
-- config.go: the bounds of a configuration behind `setup`.
use webson.Common.{
  ℕ, ◌%◌, ◌≤◌, ◌<◌, ◌≡◌, ◌≢◌, ◌↔◌, true, false, Option, none, some, List, length, arith,
}
use webson.Errors.{ok}
use webson.Config.{Config, setup, setup_sizes, effective_streams}

-- A private mask that `maskPayload` can use.
abbrev pub IsMask : Option (List ℕ) → Type 0
IsMask none = Unit {0}
IsMask (some mask) = (0 < length mask) × (length mask % 4 ≡ 0)

-- The configurations that the rest of the program relies on.
pub record IsReady (c : Config) : Type 0 where
  pub streams_fit : c.max_streams ≤ 32768
  pub streams_off : c.enable_streams ≡ false → c.max_streams ≡ 0
  pub streams_on : c.enable_streams ≡ true → 0 < c.max_streams
  pub mask_usable : IsMask c.private_mask
  pub chunk_large : 4096 ≤ c.chunk_size
  pub buffer_set : 0 < c.buffer_size
  pub timeouts_set : c.timeout ≢ none
  pub pings : 0 < c.ping_interval

-- A configuration that setup accepts is within the bounds that the rest of the program relies on.
pub setup-IsReady : (c d : Config) → setup c ≡ ok d → IsReady d
unfolding setup
setup-IsReady c d e = ground arith

-- `setup` of a configuration that is within the bounds of one that is ready changes nothing.
pub setup-ready : (c : Config) → IsReady c → setup c ≡ ok c
unfolding setup
setup-ready c r = ground arith

-- What `setup` returns where it accepts.
abbrev completed : Config → Config
completed c = setup_sizes (record c { max_streams = effective_streams c })

-- Setup refuses exactly too many streams when they are enabled, and a private mask that is empty or
-- no multiple of four bytes long.
pub setup-accepts :
    (c : Config)
    → ((c.enable_streams ≡ true → c.max_streams ≤ 32768) × IsMask c.private_mask)
      ↔ ((d : Config) × (setup c ≡ ok d))
unfolding setup
setup-accepts c = (λ h. (completed c, ground arith), λ (d, e). ground arith)

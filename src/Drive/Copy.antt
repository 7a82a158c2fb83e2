-- ===== src/Drive/Copy.antt =====
-- internal/drivefs/bounded_copy.go: `boundedTransactionalCopy` and `copyBounded`, over a source, a
-- destination and a context that are parameters. The byte limit is an int64 that only falls.
use croton_mcp.Base.{
  ℕ, zero, suc, ◌+◌, ◌-◌, ◌*◌, min, Bool, true, false, not, ◌&&◌, Option, none, some, ltb, leb,
  ◌==◌, if◌then◌else◌, Bytes, take, ℤ, pos, negsuc,
}

-- What a copy fails with; `some` of it is a Go error. `interrupted` carries `ctx.Err()`, as whether it
-- is a cancellation; `untold` says that the fuel ran out, which no copy comes to.
pub data CopyError : Type 0 where
  interrupted : Bool → CopyError
  invalid_copy_input copy_limit copy_read write_failed short_write untold : CopyError

-- What `Read` did: the count it returned, the bytes at the start of the buffer, and its error, as
-- whether it is `io.EOF`.
pub record ReadResult : Type 0 where
  pub count : ℤ
  pub content : Bytes
  pub error : Option Bool

pub record WriteResult : Type 0 where
  pub written : ℤ
  pub is_failed : Bool

-- `ctx.Err()`, `source.Read` on a buffer of some size, and `destination.Write`.
pub record Streams (W : Type 0) : Type 0 where
  pub poll : W → W × Option Bool
  pub read : ℕ → W → W × ReadResult
  pub write : Bytes → W → W × WriteResult

abbrev pub Copied : Type 0 → Type 0
Copied W = W × Option CopyError

-- The code behind a check of `ctx.Err()`.
abbrev pub polled : {W : Type 0} → W × Option Bool → (W → Copied W) → Copied W
polled (w, some e) next = (w, some (interrupted e))
polled (w, none) next = next w

abbrev pub buffer_bytes : ℕ
buffer_bytes = 32768

abbrev pub max_empty_reads : ℕ
max_empty_reads = 100

-- How many bytes a turn asks for: one, to probe, where nothing remains.
abbrev pub size_of : ℕ → ℕ
size_of remaining = if remaining == 0 then 1 else min remaining buffer_bytes

abbrev is_count : ℤ → ℕ → Bool
is_count (pos m) n = m == n
is_count (negsuc m) n = false

module _ {W : Type 0} (streams : Streams W) where
  -- The end of a turn, on the error of the read.
  unfoldable pub ending : (ℕ → ℕ → W → Copied W) → ℕ → ℕ → Option Bool → W → Copied W
  ending again remaining empty (some true) w = polled (streams.poll w) λ v. (v, none)
  ending again remaining empty (some false) w = (w, some copy_read)
  ending again remaining empty none w =
      if leb max_empty_reads empty then (w, some copy_read) else again remaining empty w

  -- What follows a write of `n` bytes.
  unfoldable pub after_write :
      (ℕ → ℕ → W → Copied W) → ℕ → ℕ → Option Bool → W × WriteResult → Copied W
  after_write again remaining n error (w, out) =
      if out.is_failed
      then (w, some write_failed)
      else if not (is_count out.written n)
      then (w, some short_write)
      else ending again (remaining - n) 0 error w

  -- What follows a read that returned `n`.
  unfoldable pub after_count : (ℕ → ℕ → W → Copied W) → ℕ → ℕ → ℕ → ReadResult → W → Copied W
  after_count again remaining empty n r w =
      if ltb (size_of remaining) n
      then (w, some copy_read)
      else if remaining == 0 && ltb 0 n
      then (w, some copy_limit)
      else if ltb 0 n
      then after_write again remaining n r.error (streams.write (take n r.content) w)
      else ending again remaining (suc empty) r.error w

  unfoldable pub after_read : (ℕ → ℕ → W → Copied W) → ℕ → ℕ → ℤ → ReadResult → W → Copied W
  after_read again remaining empty (negsuc n) r w = (w, some copy_read)
  after_read again remaining empty (pos n) r w = after_count again remaining empty n r w

  unfoldable pub turn : (ℕ → ℕ → W → Copied W) → ℕ → ℕ → W → Copied W
  turn again remaining empty w = polled (streams.poll w) λ w₁.
      let (w₂, r) = streams.read (size_of remaining) w₁ in
      polled (streams.poll w₂) λ w₃. after_read again remaining empty r.count r w₃

  -- The loop of `copyBounded`, on fuel.
  unfoldable pub copy_loop : ℕ → ℕ → ℕ → W → Copied W
  copy_loop zero remaining empty w = (w, some untold)
  copy_loop (suc fuel) remaining empty w = turn (copy_loop fuel) remaining empty w

  -- `copyBounded`. A hundred turns for each byte that remains, and a hundred more, are enough.
  unfoldable pub copy_bounded : ℕ → W → Copied W
  copy_bounded limit w = copy_loop (max_empty_reads * limit + max_empty_reads) limit 0 w

  -- `boundedTransactionalCopy` on a context and a source that are not nil, where `transaction` is
  -- `WriteTransactional` with its root and destination.
  unfoldable pub bounded_transactional_copy : ((W → Copied W) → W → Copied W) → ℤ → W → Copied W
  bounded_transactional_copy transaction (negsuc n) w = (w, some invalid_copy_input)
  bounded_transactional_copy transaction (pos zero) w = (w, some invalid_copy_input)
  bounded_transactional_copy transaction (pos (suc n)) w =
      polled (streams.poll w) λ v. transaction (copy_bounded (suc n)) v

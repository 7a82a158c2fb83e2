-- ===== src/Drive/CopyBounds.antt =====
-- `copyBounded` ends, and what it reads and writes is bounded.
use croton_mcp.Base.{
  ℕ, zero, suc, ◌+◌, ◌-◌, ◌*◌, ◌≤◌, ◌<◌, ◌≡◌, ◌≢◌, refl, arith, Bool, true, false, Option, none,
  some, take, ℤ, pos, negsuc,
}
use croton_mcp.Drive.Copy.{
  untold, ReadResult, WriteResult, Streams, Copied, polled, size_of, ending, after_write,
  after_count, after_read, turn, copy_loop, copy_bounded,
}

-- Whether a copy came to an end of its own.
abbrev is_told : {W : Type 0} → Copied W → Bool
is_told (w, some untold) = false
is_told _ = true

module _ {W : Type 0} (streams : Streams W) where
  -- The loop behind a turn ends on as much fuel as there is.
  abbrev Ends : ℕ → (ℕ → ℕ → W → Copied W) → Type 0
  Ends fuel again =
      (remaining empty : ℕ) (w : W)
      → 100 * remaining + 100 ≤ fuel + empty
      → empty < 100
      → is_told (again remaining empty w) ≡ true

  polled-is_told :
      (x : W × Option Bool) (next : W → Copied W)
      → ((w : W) → is_told (next w) ≡ true)
      → is_told (polled x next) ≡ true
  polled-is_told (w, some e) next h = refl
  polled-is_told (w, none) next h = h w

  ending-is_told :
      (fuel : ℕ) (again : ℕ → ℕ → W → Copied W)
      → Ends fuel again
      → (remaining empty : ℕ) (error : Option Bool) (w : W) → 100 * remaining + 100 ≤ fuel + empty
      → is_told (ending streams again remaining empty error w) ≡ true
  unfolding ending
  ending-is_told fuel again h remaining empty (some true) w k =
      polled-is_told (streams.poll w) (λ v. (v, none)) λ v. refl
  ending-is_told fuel again h remaining empty (some false) w k = refl
  ending-is_told fuel again h remaining empty none w k = ground (arith, h remaining empty w k)

  after_write-is_told :
      (fuel : ℕ) (again : ℕ → ℕ → W → Copied W)
      → Ends fuel again
      → (remaining n : ℕ) (error : Option Bool) (x : W × WriteResult) → 0 < n
      → n ≤ remaining
      → 100 * remaining ≤ fuel
      → is_told (after_write streams again remaining n error x) ≡ true
  unfolding after_write
  after_write-is_told fuel again h remaining n error (w, out) p q k =
      let next = ending-is_told fuel again h (remaining - n) 0 error w (omega arith) in
      ground (arith, next)

  after_count-is_told :
      (fuel : ℕ) (again : ℕ → ℕ → W → Copied W)
      → Ends fuel again
      → (remaining empty n : ℕ) (r : ReadResult) (w : W) → 100 * remaining + 100 ≤ suc fuel + empty
      → empty < 100
      → is_told (after_count streams again remaining empty n r w) ≡ true
  unfolding after_count
  after_count-is_told fuel again h remaining empty n r w k l = ground (
    arith,
    after_write-is_told fuel again h remaining n r.error (streams.write (take n r.content) w),
    ending-is_told fuel again h remaining (suc empty) r.error w (omega arith),
  )

  after_read-is_told :
      (fuel : ℕ) (again : ℕ → ℕ → W → Copied W)
      → Ends fuel again
      → (remaining empty : ℕ) (n : ℤ) (r : ReadResult) (w : W)
      → 100 * remaining + 100 ≤ suc fuel + empty
      → empty < 100
      → is_told (after_read streams again remaining empty n r w) ≡ true
  unfolding after_read
  after_read-is_told fuel again h remaining empty (negsuc n) r w k l = refl
  after_read-is_told fuel again h remaining empty (pos n) r w k l =
      after_count-is_told fuel again h remaining empty n r w k l

  Ends-turn :
      (fuel : ℕ) (again : ℕ → ℕ → W → Copied W)
      → Ends fuel again
      → Ends (suc fuel) (turn streams again)
  unfolding turn
  Ends-turn fuel again h remaining empty w k l = polled-is_told (streams.poll w) _ λ w₁.
      let x = streams.read (size_of remaining) w₁ in
      polled-is_told (streams.poll x.0) _
        λ w₃. after_read-is_told fuel again h remaining empty x.1.count x.1 w₃ k l

  Ends-copy_loop : (fuel : ℕ) → Ends fuel (copy_loop streams fuel)
  unfolding copy_loop
  Ends-copy_loop zero remaining empty w k l = absurd (ground (arith, k, l))
  Ends-copy_loop (suc fuel) remaining empty w k l =
      Ends-turn fuel (copy_loop streams fuel) (Ends-copy_loop fuel) remaining empty w k l

  untold-is_told : (x : Copied W) → is_told x ≡ true → x.1 ≢ some untold
  untold-is_told (w, o) h e = absurd (ground (arith, h, e))

  -- The fuel is enough: whatever the source, the destination and the context do, a copy comes to
  -- an end of its own.
  pub copy_bounded-untold : (limit : ℕ) (w : W) → (copy_bounded streams limit w).1 ≢ some untold
  unfolding copy_bounded
  copy_bounded-untold limit w =
      untold-is_told (copy_bounded streams limit w)
        (Ends-copy_loop (100 * limit + 100) limit 0 w (omega arith) (omega arith))

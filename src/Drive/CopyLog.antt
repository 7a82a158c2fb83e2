-- ===== src/Drive/CopyLog.antt =====
-- The bytes of a bounded copy: what it consumes of its source and passes to its destination.
use croton_mcp.Base.{
  ℕ, zero, suc, ◌+◌, ◌-◌, ◌*◌, ◌≤◌, ◌≡◌, refl, sym, ap, subst, ◌∙◌, arith, min, Bool, true, false,
  ◌&&◌, Option, none, some, [], ◌∷◌, ◌++◌, append-nil, ltb, leb, ◌==◌, of_both, of_branches, Bytes,
  length, take, length-append, ℤ, pos, negsuc,
}
use croton_mcp.Drive.Copy.{
  CopyError, interrupted, copy_limit, copy_read, untold, ReadResult, WriteResult, Streams, Copied,
  polled, size_of, ending, after_write, after_count, after_read, turn, copy_loop, copy_bounded,
}

-- The bytes that the source put into the buffer, and those passed to `Write`.
pub record Log : Type 0 where
  pub consumed : Bytes
  pub passed : Bytes

-- The bytes that a read claims, at most those of the buffer that it was given.
abbrev pub claimed : ℕ → ReadResult → Bytes
claimed size r = elim r.count [ pos n ↦ take (min n size) r.content | negsuc n ↦ [] ]

-- The same streams, which also record the bytes.
unfoldable pub logged : {W : Type 0} → Streams W → Streams (W × Log)
logged s = record {
  poll = λ w. let x = s.poll w.0 in ((x.0, w.1), x.1);
  read = λ n w.
      let x = s.read n w.0 in
      ((x.0, record (w.1) { consumed = w.1.consumed ++ claimed n x.1 }), x.1);
  write = λ b w. let x = s.write b w.0 in ((x.0, record (w.1) { passed = w.1.passed ++ b }), x.1);
}

-- A copy so far: all that was consumed was passed on, and what remains is within the limit.
abbrev pub Even : ℕ → ℕ → Log → Type 0
Even limit remaining log = (log.consumed ≡ log.passed) × (length log.passed + remaining ≤ limit)

-- The end of a copy: at most the limit was passed on and one byte more consumed; what was passed on
-- is the beginning of what was consumed, and all of it where the copy returns no error.
abbrev pub Bounded : ℕ → Log → Option CopyError → Type 0
Bounded limit log e =
    (length log.passed ≤ limit)
    × (length log.consumed ≤ limit + 1)
    × ((rest : Bytes) × (log.consumed ≡ log.passed ++ rest))
    × (e ≡ none → log.consumed ≡ log.passed)

Even-Bounded :
    (limit remaining : ℕ) (log : Log) (e : Option CopyError)
    → Even limit remaining log
    → Bounded limit log e
Even-Bounded limit remaining log e (c, k) =
    (omega arith, ground (arith, c, k), ([], c ∙ sym (append-nil log.passed)), λ _. c)

-- A copy that has consumed a chunk and not yet passed it on.
abbrev Ahead : ℕ → ℕ → Bytes → Log → Type 0
Ahead limit remaining chunk log =
    (log.consumed ≡ log.passed ++ chunk)
    × (length log.passed + remaining ≤ limit)
    × (length chunk ≤ size_of remaining)

Ahead-Bounded :
    (limit remaining : ℕ) (chunk : Bytes) (log : Log) (e : CopyError)
    → Ahead limit remaining chunk log
    → Bounded limit log (some e)
Ahead-Bounded limit remaining chunk log e (c, k, l) = (
  omega arith,
  ground (arith, c, k, l, length-append log.passed chunk),
  (chunk, c),
  λ f. absurd (ground (arith, f)),
)

length-take : (n : ℕ) (s : Bytes) → length (take n s) ≤ n
length-take zero s = omega arith
length-take (suc n) [] = omega arith
length-take (suc n) (c ∷ s) = omega (arith, length-take n s)

length-claimed :
    (remaining : ℕ) (r : ReadResult) → length (claimed (size_of remaining) r) ≤ size_of remaining
length-claimed remaining r =
    elim r.count
      as (λ n.
        length (elim n as (λ _. Bytes) [
          | pos m ↦ take (min m (size_of remaining)) r.content
          | negsuc m ↦ []
        ])
        ≤ size_of remaining) [
          | pos n ↦ (let l = length-take (min n (size_of remaining)) r.content in ground (arith, l))
          | negsuc n ↦ omega arith
        ]

min-size_of : (remaining n : ℕ) → ltb (size_of remaining) n ≡ false → min n (size_of remaining) ≡ n
min-size_of remaining n e = ground (arith, e)

fits :
    (remaining n : ℕ)
    → ltb (size_of remaining) n ≡ false
    → remaining == 0 && ltb 0 n ≡ false
    → n ≤ remaining
fits remaining n e f = ground (arith, e, f)

Even-written :
    (limit remaining n : ℕ) (s : Bytes) (log : Log)
    → n ≤ remaining
    → Ahead limit remaining (take n s) log
    → Even limit (remaining - n) (record log { passed = log.passed ++ take n s })
Even-written limit remaining n s log q (c, k, l) =
    (c, omega (arith, length-append log.passed (take n s), length-take n s))

Even-skipped :
    (limit remaining : ℕ) (n : ℕ) (s : Bytes) (log : Log)
    → ltb 0 n ≡ false
    → Ahead limit remaining (take n s) log
    → Even limit remaining log
Even-skipped limit remaining zero s log g (c, k, l) = (c ∙ append-nil log.passed, k)
Even-skipped limit remaining (suc n) s log g (c, k, l) = absurd (ground (arith, g))

module _ {W : Type 0} (streams : Streams W) (limit : ℕ) where
  abbrev Fine : Copied (W × Log) → Type 0
  Fine x = Bounded limit x.0.1 x.1

  abbrev Keeps : (ℕ → ℕ → W × Log → Copied (W × Log)) → Type 0
  Keeps again =
      (remaining empty : ℕ) (w : W × Log)
      → Even limit remaining w.1
      → Fine (again remaining empty w)

  polled-Fine :
      (w : W) (log : Log) (o : Option Bool) (next : W × Log → Copied (W × Log))
      → ((e : CopyError) → Bounded limit log (some e))
      → Fine (next (w, log))
      → Fine (polled ((w, log), o) next)
  polled-Fine w log (some e) next h k = h (interrupted e)
  polled-Fine w log none next h k = k

  ending-Fine :
      (again : ℕ → ℕ → W × Log → Copied (W × Log))
      → Keeps again
      → (remaining empty : ℕ) (error : Option Bool) (w : W × Log) → Even limit remaining w.1
      → Fine (ending (logged streams) again remaining empty error w)
  unfolding ending logged
  ending-Fine again h remaining empty (some true) w k =
      polled-Fine (streams.poll w.0).0 w.1 (streams.poll w.0).1 (λ v. (v, none))
        (λ e. Even-Bounded limit remaining w.1 (some e) k) (Even-Bounded limit remaining w.1 none k)
  ending-Fine again h remaining empty (some false) w k = Even-Bounded limit remaining w.1 _ k
  ending-Fine again h remaining empty none w k =
      of_both (λ (x : Copied (W × Log)). Fine x) (leb 100 empty) _ _
        (Even-Bounded limit remaining w.1 (some copy_read) k) (h remaining empty w k)

  after_write-Fine :
      (again : ℕ → ℕ → W × Log → Copied (W × Log))
      → Keeps again
      → (remaining n : ℕ) (error : Option Bool) (x : (W × Log) × WriteResult)
      → Even limit (remaining - n) x.0.1
      → Fine (after_write (logged streams) again remaining n error x)
  unfolding after_write
  after_write-Fine again h remaining n error (w, out) k =
      let stop = λ (e : CopyError). Even-Bounded limit (remaining - n) w.1 (some e) k in
      of_both (λ (x : Copied (W × Log)). Fine x) out.is_failed _ _ (stop _)
        (of_both (λ (x : Copied (W × Log)). Fine x) _ _ _ (stop _)
          (ending-Fine again h (remaining - n) 0 error w k))

  after_count-Fine :
      (again : ℕ → ℕ → W × Log → Copied (W × Log))
      → Keeps again
      → (remaining empty n : ℕ) (r : ReadResult) (w : W × Log)
      → Ahead limit remaining (take (min n (size_of remaining)) r.content) w.1
      → Fine (after_count (logged streams) again remaining empty n r w)
  unfolding after_count logged
  after_count-Fine again h remaining empty n r w k =
      let fine = λ (x : Copied (W × Log)). Fine x in
      let stop = λ (e : CopyError).
        Ahead-Bounded limit remaining (take (min n (size_of remaining)) r.content) w.1 e k in
      of_branches fine (ltb (size_of remaining) n) _ _ (λ _. stop copy_read)
        λ e.
          of_branches fine (remaining == 0 && ltb 0 n) _ _ (λ _. stop copy_limit)
            λ f.
              let ahead =
                subst (λ m. Ahead limit remaining (take m r.content) w.1)
                  (min-size_of remaining n e) k in
              of_branches fine (ltb 0 n) _ _
                (λ g.
                  after_write-Fine again h remaining n r.error
                    ((logged streams).write (take n r.content) w)
                    (Even-written limit remaining n r.content w.1 (fits remaining n e f) ahead))
                (λ g.
                  ending-Fine again h remaining (suc empty) r.error w
                    (Even-skipped limit remaining n r.content w.1 g ahead))

  after_read-Fine :
      (again : ℕ → ℕ → W × Log → Copied (W × Log))
      → Keeps again
      → (remaining empty : ℕ) (n : ℤ) (r : ReadResult) (w : W × Log)
      → Ahead limit remaining (claimed (size_of remaining) (record r { count = n })) w.1
      → Fine (after_read (logged streams) again remaining empty n r w)
  unfolding after_read
  after_read-Fine again h remaining empty (negsuc n) r w k =
      Ahead-Bounded limit remaining [] w.1 copy_read k
  after_read-Fine again h remaining empty (pos n) r w k =
      after_count-Fine again h remaining empty n r w k

  Keeps-turn :
      (again : ℕ → ℕ → W × Log → Copied (W × Log))
      → Keeps again
      → Keeps (turn (logged streams) again)
  unfolding turn logged
  Keeps-turn again h remaining empty w k =
      let x = streams.poll w.0 in
      let y = streams.read (size_of remaining) x.0 in
      let z = streams.poll y.0 in
      let log : Log = record (w.1) { consumed = w.1.consumed ++ claimed (size_of remaining) y.1 } in
      let ahead : Ahead limit remaining (claimed (size_of remaining) y.1) log =
        (ap (λ l. l ++ claimed (size_of remaining) y.1) k.0, k.1, length-claimed remaining y.1) in
      polled-Fine x.0 w.1 x.1 _ (λ e. Even-Bounded limit remaining w.1 (some e) k)
        (polled-Fine z.0 log z.1 _ (λ e. Ahead-Bounded limit remaining _ log e ahead)
          (after_read-Fine again h remaining empty y.1.count y.1 (z.0, log) ahead))

  Keeps-copy_loop : (fuel : ℕ) → Keeps (copy_loop (logged streams) fuel)
  unfolding copy_loop
  Keeps-copy_loop zero remaining empty w k = Even-Bounded limit remaining w.1 (some untold) k
  Keeps-copy_loop (suc fuel) remaining empty w k =
      Keeps-turn (copy_loop (logged streams) fuel) (Keeps-copy_loop fuel) remaining empty w k

abbrev pub empty_log : Log
empty_log = record { consumed = []; passed = [] }

-- Whatever the streams do, a copy passes at most the limit to the destination and consumes at most
-- one byte more; what it passed on is the beginning of what it consumed, and where it returns no
-- error it passed on all of it.
pub copy_bounded-Bounded :
    {W : Type 0} (streams : Streams W) (limit : ℕ) (w : W)
    → let out = copy_bounded (logged streams) limit (w, empty_log) in Bounded limit out.0.1 out.1
unfolding copy_bounded
copy_bounded-Bounded streams limit w =
    Keeps-copy_loop streams limit (100 * limit + 100) limit 0 (w, empty_log) (refl, omega arith)

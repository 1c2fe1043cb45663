-- ===== src/Addr/PageIter/Pages.antt =====
-- What a `PageIter` yields: every page of the range, in order, with no panic on the way.
use native.Mathlib.Nat.{one-le-pow, div-add-mod, mul-sub, mod-lt, div-lt_iff_lt-mul}
use axmm_crates.Base.{
  ℕ, zero, suc, ◌+◌, ◌-◌, ◌*◌, ◌/◌, ◌%◌, ◌^◌, ◌≤◌, ◌<◌, ◌≡◌, inl, inr, true, ◌&&◌, none, some, List,
  [], ◌∷◌, ret, Build, ◌==◌, ==_iff, Bool-cases, lt-cases, if◌then◌else◌, arith,
}
use axmm_crates.Base.Word.{IsUsize}
use axmm_crates.Addr.Align
use axmm_crates.Addr.Align.Laws.{is_aligned_lem}
use axmm_crates.Addr.MemoryAddr.{MemoryAddr}
use axmm_crates.Addr.PageIter.{PageIter, is_power_below, is_power_of_two, new, next, collect}

div-le : (p t s : ℕ) → 1 ≤ p → t ≤ s → t / p ≤ s / p
div-le p t s one h =
    let below : t / p < suc (s / p) =
      (div-lt_iff_lt-mul one).1 (omega (arith, div-add-mod s p, mod-lt s one)) in
    omega arith

-- The test finds the exponent.
power_below : (w n : ℕ) → is_power_below w n ≡ true → (k : ℕ) × (k < w) × (n ≡ 2 ^ k)
unfolding is_power_below
power_below zero n h = cc
power_below (suc w) n h = elim (Bool-cases (n == 2 ^ w)) [
  | inl e ↦ (w, omega arith, (==_iff n (2 ^ w)).0 e)
  | inr e ↦ let (k, lt, eq) = power_below w n (rw e at h) in (k, omega arith, eq)
]

is_aligned_by_power :
    (b : Build) (a n : ℕ) → is_power_of_two n ≡ true → Align.is_aligned b a n ≡ ret (a % n == 0)
unfolding is_power_of_two
is_aligned_by_power b a n h =
    let (k, lt, eq) = power_below 64 n h in rw eq (is_aligned_lem k lt b a)

power-pos : (n : ℕ) → is_power_of_two n ≡ true → 1 ≤ n
unfolding is_power_of_two
power-pos n h = let (k, lt, eq) = power_below 64 n h in rw eq (one-le-pow k 2 (omega arith))

module _ {A : Type 0} ⦃m : MemoryAddr A⦄ where
  -- `n` pages from the address `x` on.
  unfoldable pub pages : ℕ → ℕ → ℕ → List A
  pages page_size zero x = []
  pages page_size (suc n) x = m.from x ∷ pages page_size n (x + page_size)

  -- `new` never panics, in either build: it returns the iterator if the page size is a power of two
  -- and both ends are multiples of it, and `None` otherwise.
  pub new_total :
      (b : Build) (page_size : ℕ) (start end : A)
      → new b page_size start end
        ≡ ret (
            if is_power_of_two page_size
              && (m.into start % page_size == 0)
              && (m.into end % page_size == 0)
            then some (record { start = start; end = end })
            else none)
  unfolding new
  new_total b page_size start end = elim (Bool-cases (is_power_of_two page_size)) [
    | inl e ↦ ground (
      arith,
      is_aligned_by_power b (m.into start) page_size e,
      is_aligned_by_power b (m.into end) page_size e,
    )
    | inr e ↦ ground arith
  ]

  collect_past :
      (fuel page_size : ℕ) (it : PageIter A)
      → m.into it.end ≤ m.into it.start
      → collect (suc fuel) page_size it ≡ ret (some [])
  unfolding collect
  collect_past fuel page_size it h = ground (arith, m.cmp-into it.start it.end)

  collect_cons :
      (fuel page_size : ℕ) (it rest : PageIter A) (page : A) (l : List A)
      → next page_size it ≡ ret (some page, rest)
      → collect fuel page_size rest ≡ ret (some l)
      → collect (suc fuel) page_size it ≡ ret (some (page ∷ l))
  unfolding collect
  collect_cons fuel page_size it rest page l e r = ground arith

  next_page :
      (n page_size : ℕ) (it : PageIter A)
      → 1 ≤ page_size
      → IsUsize (m.into it.end)
      → m.into it.start + suc n * page_size ≡ m.into it.end
      → next page_size it
        ≡ ret (some it.start, record { start = m.from (m.into it.start + page_size); end = it.end })
  unfolding next
  next_page n page_size it one fits e = ground (arith, m.cmp-into it.start it.end)

  collect-pages :
      (n page_size : ℕ) (it : PageIter A)
      → 1 ≤ page_size
      → IsUsize (m.into it.end)
      → m.into it.start + n * page_size ≡ m.into it.end
      → collect (suc n) page_size it ≡ ret (some (pages page_size n (m.into it.start)))
  unfolding pages
  collect-pages zero page_size it one fits e = collect_past zero page_size it (omega arith)
  collect-pages (suc n) page_size it one fits e =
      let rest : PageIter A = record {
        start = m.from (m.into it.start + page_size);
        end = it.end;
      } in
      let here : m.into rest.start ≡ m.into it.start + page_size =
        m.into-from (m.into it.start + page_size) in
      let tail : collect (suc n) page_size rest
          ≡ ret (some (pages page_size n (m.into it.start + page_size))) =
        rw here at (collect-pages n page_size rest one fits (rw here (omega arith))) in
      rw (m.from-into it.start) (
        collect_cons (suc n) page_size it rest it.start _ (next_page n page_size it one fits e)
          tail)

  -- The inversion of `new`.
  new-some :
      (b : Build) (page_size : ℕ) (start end : A) (it : PageIter A)
      → new b page_size start end ≡ ret (some it)
      → (is_power_of_two page_size ≡ true)
        × (m.into start % page_size ≡ 0)
        × (m.into end % page_size ≡ 0)
        × (it ≡ record { start = start; end = end })
  new-some b page_size start end it h = ground (arith, new_total b page_size start end)

  -- The iterator that `new` returns yields, with no panic, the pages from its start to its end in
  -- order and then `None`; there are none if the end does not exceed the start. The end lies in a
  -- word.
  pub yields_pages :
      (b : Build) (page_size : ℕ) (start end : A) (it : PageIter A)
      → IsUsize (m.into end)
      → new b page_size start end ≡ ret (some it)
      → let n = m.into end / page_size - m.into start / page_size in
        collect (suc n) page_size it ≡ ret (some (pages page_size n (m.into start)))
  unfolding pages
  yields_pages b page_size start end it fits h =
      let (power, first, last, e) = new-some b page_size start end it h in
      let s : ℕ = m.into start in
      let t : ℕ = m.into end in
      rw e (elim (lt-cases s t) [
        | inl before ↦
            collect-pages (t / page_size - s / page_size) page_size _ (power-pos page_size power)
              fits
              (omega (
                arith,
                mul-sub page_size (t / page_size) (s / page_size),
                div-add-mod s page_size,
                div-add-mod t page_size,
              ))
        | inr past ↦
            let none_left : t / page_size - s / page_size ≡ 0 =
              omega (arith, div-le page_size t s (power-pos page_size power) past) in
            rw none_left (collect_past 0 page_size _ past)
      ])

-- ===== src/Vm/Vmmap/Copy/Bytes.antt =====
-- The bytes that vmmap_read of vm/kernel/vm/vmmap.c copies.
use usc_projects.Prelude.{
  ℕ, zero, suc, ◌+◌, ◌-◌, ◌*◌, ◌/◌, ◌%◌, ◌≤◌, ◌<◌, ◌≡◌, refl, subst, ◌∙◌, true, false, ◌&&◌, Option,
  some, leb, ltb, if◌then◌else◌, Bool-cases, inl, inr, arith,
}
use usc_projects.Kernel.{Code, done, ok, Returns, returns, Returns-mono}
use usc_projects.Vm.Area.{addr_to_pn, page_size}
use usc_projects.Vm.Vmmap.{Vmmap, vmmap_lookup}
use usc_projects.Vm.Vmmap.Copy.{frame_at, memcpy, read_loop, pages_of, vmmap_read}

module _ (pframe_get : ℕ → ℕ → Option ℕ) (memory : ℕ → ℕ) (map : Vmmap) (frames : ℕ → ℕ)
    (count first : ℕ) where
  -- The byte of the frames that belongs at place `j`.
  abbrev byte : ℕ → ℕ
  byte j = memory (frames (j / page_size) + j % page_size)

  -- pframe_get finds the frames of the pages from `i` on.
  abbrev Found : ℕ → ℕ → Type 0
  Found i n =
      (k : ℕ)
      → i ≤ k
      → k < i + n
      → frame_at pframe_get (first + k) (vmmap_lookup map (first + k)) ≡ ok (some (frames k))

  -- The buffer has the bytes from page `i` on, and is otherwise as before.
  abbrev Filled : ℕ → (ℕ → ℕ) → Code × (ℕ → ℕ) → Type 0
  Filled i buf (code, buf1) =
      (code ≡ done 0)
      × ((j : ℕ) → buf1 j ≡ (if leb (i * page_size) j && ltb j count then byte j else buf j))

  -- A place of page `i` gets the byte from that frame.
  page_byte :
      (i j : ℕ)
      → i * page_size ≤ j
      → j < (i + 1) * page_size
      → memory (frames i + (j - i * page_size)) ≡ byte j
  page_byte i j above below =
      let page : i ≡ j / page_size = omega arith in
      let rest : j - i * page_size ≡ j % page_size = omega arith in
      λ k. memory (frames (page k) + rest k)

  fill_page :
      (i j : ℕ) (buf : ℕ → ℕ)
      → i * page_size ≤ count
      → (if leb ((i + 1) * page_size) j && ltb j count
          then byte j
          else memcpy memory (i * page_size) (frames i) (count - i * page_size) buf j)
        ≡ (if leb (i * page_size) j && ltb j count then byte j else buf j)
  fill_page i j buf below = elim (Bool-cases (leb (i * page_size) j && ltb j count)) [
    | inr outside ↦
        let later : (leb ((i + 1) * page_size) j && ltb j count) ≡ false = ground arith in
        let not_now : (leb (i * page_size) j && ltb j (i * page_size + (count - i * page_size)))
            ≡ false =
          ground arith in
        rw (outside, later, not_now)
    | inl inside ↦ elim (Bool-cases (leb ((i + 1) * page_size) j && ltb j count)) [
      | inl later ↦ rw (inside, later)
      | inr now ↦
          let here : (leb (i * page_size) j && ltb j (i * page_size + (count - i * page_size)))
              ≡ true =
            ground arith in
          rw (inside, now, here) (page_byte i j (ground arith) (ground arith))
    ]
  ]

  read_loop-Filled :
      (n i : ℕ) (buf : ℕ → ℕ)
      → count ≤ (i + n) * page_size
      → (i + n) * page_size ≤ count + page_size
      → Found i n
      → Returns (Filled i buf) (read_loop pframe_get memory map count n i (first + i) buf)
  unfolding read_loop
  read_loop-Filled zero i buf enough close found = returns (
    refl,
    λ j.
        let none_left : (leb (i * page_size) j && ltb j count) ≡ false = ground arith in
        rw none_left,
  )
  read_loop-Filled (suc n) i buf enough close found =
      let next : first + i + 1 ≡ first + (i + 1) = omega arith in
      rw (found i (omega arith) (omega arith), next, read_loop)
        (Returns-mono
          (read_loop-Filled n (i + 1)
            (memcpy memory (i * page_size) (frames i) (count - i * page_size) buf) (omega arith)
            (omega arith) (λ k above below. found k (omega arith) (omega arith)))
          λ (code, buf1) (ended, filled). (ended, λ j. filled j ∙ fill_page i j buf (omega arith)))

-- When the pages from that of the address on are all in areas and pframe_get finds their frames,
-- vmmap_read returns 0, and the buffer has the bytes of the frames one after another, `count` of
-- them, and is as before behind them. It starts at the first byte of the page, wherever in the
-- page the address is.
pub vmmap_read-Filled :
    (pframe_get : ℕ → ℕ → Option ℕ) (memory : ℕ → ℕ) (map : Vmmap) (vaddr count : ℕ)
    (frames buf : ℕ → ℕ)
    → ((k : ℕ)
        → k < pages_of count
        → frame_at pframe_get (addr_to_pn vaddr + k) (vmmap_lookup map (addr_to_pn vaddr + k))
          ≡ ok (some (frames k)))
    → Returns
        (λ (code, buf1).
          (code ≡ done 0)
          × ((j : ℕ)
              → buf1 j
                ≡ (if ltb j count then memory (frames (j / page_size) + j % page_size) else buf j)))
        (vmmap_read pframe_get memory map vaddr count buf)
unfolding vmmap_read
vmmap_read-Filled pframe_get memory map vaddr count frames buf found =
    let first = addr_to_pn vaddr in
    let enough : count ≤ pages_of count * page_size = ground arith in
    let close : pages_of count * page_size ≤ count + page_size = ground arith in
    let start : first + 0 ≡ first = omega arith in
    let run : Returns (Filled pframe_get memory map frames count first 0 buf)
        (read_loop pframe_get memory map count (pages_of count) 0 first buf) =
      subst
        (λ vfn.
          Returns (Filled pframe_get memory map frames count first 0 buf)
            (read_loop pframe_get memory map count (pages_of count) 0 vfn buf))
        start
        (read_loop-Filled pframe_get memory map frames count first (pages_of count) 0 buf
          (omega (arith, enough)) (omega (arith, close))
          (λ k above below. found k (omega arith))) in
    Returns-mono run λ (code, buf1) (ended, filled).
      (ended, λ j. filled j ∙ (let all : leb 0 j ≡ true = ground arith in rw all))

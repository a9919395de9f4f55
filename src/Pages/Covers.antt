-- ===== src/Pages/Covers.antt =====
-- Which pages main/views/ladder.py links to.
use Prim.Native.Nat.{max, min}
use rankedftw.Prelude.{
  ◌∷◌, ◌≤◌, zero, suc, ◌-◌, ◌+◌, refl, ltb, [], ◌==◌, ◌&&◌, true, arith, ◌||◌, leb, false, ◌≡◌,
  ◌++◌, Bool, List, ℕ,
}
use rankedftw.Pages.{Args, Paths}
use rankedftw.Pages.Paging.{
  last_of, Entry, page, gap, paginate, pages_from, range_pages, gap_if, three_ranges, page_count,
  current_page_plus_1, page_offset,
}

-- Whether a list has a link to the page of an index.
abbrev pub has_page : ℕ → List Entry → Bool
has_page i [] = false
has_page i ((page j url) ∷ entries) = (j == i) || has_page i entries
has_page i (gap ∷ entries) = has_page i entries

has_page-append : (i : ℕ) (a b : List Entry) → has_page i (a ++ b) ≡ (has_page i a || has_page i b)
has_page-append i [] b = refl
has_page-append i ((page j url) ∷ a) b = ground (arith, has_page-append i a b)
has_page-append i (gap ∷ a) b = has_page-append i a b

has_page-gap_if :
    (paths : Paths) (args : Args) (offset i : ℕ) (b : Bool)
    → has_page i (gap_if paths args offset b) ≡ false
has_page-gap_if paths args offset i true = refl
has_page-gap_if paths args offset i false = refl

has_page-pages_from :
    (paths : Paths) (args : Args) (offset i start n : ℕ)
    → has_page i (pages_from paths args offset start n) ≡ (leb start i && ltb i (start + n))
unfolding pages_from
has_page-pages_from paths args offset i start zero = ground arith
has_page-pages_from paths args offset i start (suc n) =
    ground (arith, has_page-pages_from paths args offset i (start + 1) n)

has_page-range :
    (paths : Paths) (args : Args) (offset i start end : ℕ)
    → has_page i (range_pages paths args offset start end) ≡ (leb start i && ltb i end)
has_page-range paths args offset i start end =
    ground (arith, has_page-pages_from paths args offset i start (end - start))

-- The ranges of the three loops, as one condition on the index.
ranges_lem :
    (i c n : ℕ)
    → c ≤ n
    → (let beg_end = min 4 n in
        let b = last_of 0 0 beg_end in
        let mid_start = min (max (b + 1) (c - 4)) n in
        let mid_end = min (c + 3) n in
        let j = last_of b mid_start mid_end in
        let end_start = max (j + 1) (n - 4) in
        ((leb 0 i && ltb i beg_end)
          || ((leb mid_start i && ltb i mid_end) || (leb end_start i && ltb i n))))
      ≡ (ltb i n && (ltb i 4 || ((leb c (i + 4) && ltb i (c + 3)) || leb n (i + 4))))
ranges_lem i c n h = ground arith

-- The list for any page that is current, or none, of any number of pages.
three_ranges-has_page :
    (paths : Paths) (args : Args) (offset i c n : ℕ)
    → c ≤ n
    → has_page i (three_ranges paths args offset c n)
      ≡ (ltb i n && (ltb i 4 || ((leb c (i + 4) && ltb i (c + 3)) || leb n (i + 4))))
unfolding three_ranges
three_ranges-has_page paths args offset i c n h =
    let beg_end = min 4 n in
    let b = last_of 0 0 beg_end in
    let mid_start = min (max (b + 1) (c - 4)) n in
    let mid_end = min (c + 3) n in
    let j = last_of b mid_start mid_end in
    let end_start = max (j + 1) (n - 4) in
    rw
      (
        has_page-append i (range_pages paths args offset 0 beg_end) _,
        has_page-append i (gap_if paths args offset (ltb (b + 1) mid_start)) _,
        has_page-append i (range_pages paths args offset mid_start mid_end) _,
        has_page-append i (gap_if paths args offset (ltb (j + 1) end_start)) _,
        has_page-gap_if paths args offset i (ltb (b + 1) mid_start),
        has_page-gap_if paths args offset i (ltb (j + 1) end_start),
        has_page-range paths args offset i 0 beg_end,
        has_page-range paths args offset i mid_start mid_end,
        has_page-range paths args offset i end_start n,
      )
      (ranges_lem i c n h)

current_le :
    (count data_offset : ℕ) → current_page_plus_1 count data_offset ≤ page_count count data_offset
current_le count data_offset = ground arith

-- For any count, offset and index, the list of pages links to the index exactly when it is below
-- the number of pages and is below 4, within 3 of the current page, or among the last 4; with an
-- offset past the end there is no current page.
pub paginate-has_page :
    (paths : Paths) (args : Args) (count data_offset i : ℕ)
    → has_page i (paginate paths args count data_offset) ≡ (
        ltb i (page_count count data_offset)
        && (ltb i 4
            || ((leb (current_page_plus_1 count data_offset) (i + 4)
                  && ltb i (current_page_plus_1 count data_offset + 3))
                || leb (page_count count data_offset) (i + 4))))
unfolding paginate
paginate-has_page paths args count data_offset i =
    three_ranges-has_page paths args (page_offset data_offset) i
      (current_page_plus_1 count data_offset) (page_count count data_offset)
      (current_le count data_offset)

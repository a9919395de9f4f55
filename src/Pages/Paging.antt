-- ===== src/Pages/Paging.antt =====
-- main/views/ladder.py, `LadderView.get`: the links to the pages.
use Prim.Native.Nat.{max, min}
use rankedftw.Prelude.Int.{sub_ℕ, ℤ}
use rankedftw.Prelude.{
  ◌++◌, zero, false, ◌*◌, true, suc, ◌∷◌, ◌/◌, ◌%◌, ltb, leb, [], ◌-◌, ◌+◌, if◌then◌else◌, List,
  Bool, ℕ,
}
use rankedftw.Pages.{Url, Paths, Args, page_url}

abbrev pub page_size : ℕ
page_size = 100

abbrev pub beg_size : ℕ
beg_size = 4

abbrev pub end_size : ℕ
end_size = 4

-- `math.ceil(a / PAGE_SIZE)`, and `-offset % PAGE_SIZE`.
abbrev pub ceil_pages : ℕ → ℕ
ceil_pages a = (a + (page_size - 1)) / page_size

abbrev pub page_offset : ℕ → ℕ
page_offset data_offset = (page_size - data_offset % page_size) % page_size

-- One more than the page, which is -1 where the offset is past the end.
abbrev pub current_page_plus_1 : ℕ → ℕ → ℕ
current_page_plus_1 count data_offset =
    if leb count data_offset then 0 else ceil_pages data_offset + 1

abbrev pub page_count : ℕ → ℕ → ℕ
page_count count data_offset = ceil_pages (count + page_offset data_offset)

-- An entry of the list: a page with its index and its link, or a gap.
pub data Entry : Type 0 where
  page : ℕ → Url → Entry
  gap : Entry

-- `for i in range(start, end)`, and `i` after it. With one more than the current page, `c`, the
-- starts of `MID_SIZE // 2` pages around it are `c - 4` and `c + 3`; where that start is negative, the
-- other one is the greater.
abbrev pub last_of : ℕ → ℕ → ℕ → ℕ
last_of i start end = if ltb start end then end - 1 else i

abbrev pub index_at : ℕ → ℕ → ℤ
index_at i offset = sub_ℕ (page_size * i) offset

module _ (paths : Paths) (args : Args) (offset : ℕ) where
  unfoldable pub pages_from : ℕ → ℕ → List Entry
  unfolding page_url
  pages_from i zero = []
  pages_from i (suc n) = page i (page_url paths args (index_at i offset)) ∷ pages_from (i + 1) n

  abbrev pub range_pages : ℕ → ℕ → List Entry
  range_pages start end = pages_from start (end - start)

  abbrev pub gap_if : Bool → List Entry
  gap_if true = gap ∷ []
  gap_if false = []

  -- The three loops, over the current page plus 1 and the number of pages.
  unfoldable pub three_ranges : ℕ → ℕ → List Entry
  unfolding pages_from
  three_ranges current pages =
      let beg_end = min beg_size pages in
      let i = last_of 0 0 beg_end in
      let mid_start = min (max (i + 1) (current - 4)) pages in
      let mid_end = min (current + 3) pages in
      let j = last_of i mid_start mid_end in
      let end_start = max (j + 1) (pages - end_size) in
      range_pages 0 beg_end
      ++ (gap_if (ltb (i + 1) mid_start)
          ++ (range_pages mid_start mid_end
              ++ (gap_if (ltb (j + 1) end_start) ++ range_pages end_start pages)))

unfoldable pub paginate : Paths → Args → ℕ → ℕ → List Entry
unfolding three_ranges
paginate paths args count data_offset =
    three_ranges paths args (page_offset data_offset) (current_page_plus_1 count data_offset)
      (page_count count data_offset)

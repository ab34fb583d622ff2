-- ===== src/Cli/Paging.antt =====
-- cmdList: the pages of a bucket put together.
use mathlib.Core.List.{map-append}
use mkqd.Base.{
  ℕ, zero, suc, ◌+◌, ◌-◌, ◌*◌, ◌≤◌, ◌≡◌, refl, sym, ap, ◌∙◌, Bool, true, false, Option, List, [],
  ◌∷◌, ◌++◌, map, take, drop, Bytes, mem_bytes, arith,
}
use mkqd.Base.Int.{pos, ltb_ℤ, ◌+ℤ◌, ◌-ℤ◌, wrap64, wrap64_pos, max_int64}
use mkqd.Cli.Inspect.{
  buckets, ListFlags, ListOutput, first_index, last_index, view_of, open_inspector, queue, cmd_list,
  list_page,
}
use mkqd.Cli.Redis.{Answer, got, error, Redis}
use mkqd.Cli.View.{Job, JobState, JobView}

suc_mul : (n k : ℕ) → suc n * k ≡ n * k + k
suc_mul n k = omega arith

zero_mul : (k : ℕ) → 0 * k ≡ 0
zero_mul k = omega arith

take_nil : {A : Type 0} (n : ℕ) → ◌≡◌ {A = List A} (take n []) []
take_nil zero = refl
take_nil (suc n) = refl

take_add : {A : Type 0} (a b : ℕ) (l : List A) → take (a + b) l ≡ take a l ++ take b (drop a l)
take_add zero b l = ap (λ n. take n l) n_zero
  where
    n_zero : 0 + b ≡ b
    n_zero = omega arith
take_add (suc a) b [] = take_nil (suc a + b) ∙ sym (take_nil b)
take_add (suc a) b (x ∷ l) = ap (λ n. take n (x ∷ l)) n_suc ∙ ap (λ r. x ∷ r) (take_add a b l)
  where
    n_suc : suc a + b ≡ suc (a + b)
    n_suc = omega arith

abbrev pub page_flags : ℕ → ℕ → Bool → ListFlags
page_flags n k asc = record { page = pos n; size = pos k; asc = asc }

add_pos : (m k : ℕ) → pos m +ℤ pos k ≡ pos (m + k)
unfolding ◌+ℤ◌
add_pos m k = ground arith

sub_pos : (m k : ℕ) → k ≤ m → pos m -ℤ pos k ≡ pos (m - k)
unfolding ◌-ℤ◌
sub_pos m k h = ground arith

wrapped_last :
    (m k : ℕ)
    → 1 ≤ k
    → m + k ≤ max_int64
    → wrap64 (wrap64 (wrap64 (pos m) +ℤ pos k) -ℤ pos 1) ≡ pos (m + k - 1)
wrapped_last m k hk h = rw (
  wrap64_pos m (omega arith),
  add_pos m k,
  wrap64_pos (m + k) h,
  sub_pos (m + k) 1 (omega arith),
  wrap64_pos (m + k - 1) (omega arith),
)

-- Page `n` of `k` jobs starts behind the pages before it and ends before the next.
first_index-page :
    (n k : ℕ) (asc : Bool) → n * k + k ≤ max_int64 → first_index (page_flags n k asc) ≡ pos (n * k)
unfolding first_index
first_index-page n k asc h = wrap64_pos (n * k) (omega arith)

last_index-page :
    (n k : ℕ) (asc : Bool)
    → 1 ≤ k
    → n * k + k ≤ max_int64
    → last_index (page_flags n k asc) ≡ pos (n * k + k - 1)
unfolding last_index
last_index-page n k asc hk h = wrapped_last (n * k) k hk h

module _ (R : Redis) (s : R.State) where
  -- Behind the Define of its queue, ListJobs gives the jobs from `first` to `last`, both included, of the
  -- bucket's jobs.
  abbrev pub AreListed : Bytes → Bytes → Bool → List (Job × Option JobState) → Type 0
  AreListed name bucket asc jobs =
      (first last : ℕ)
      → first ≤ last
      → R.list_jobs name bucket (pos first) (pos last) asc (R.define name s)
        ≡ got (take (suc last - first) (drop first jobs))

  abbrev append_page : Answer (List JobView) → Answer ListOutput → Answer (List JobView)
  append_page (got shown) (got out) = got (shown ++ out.jobs)
  append_page (got shown) (error e) = error e
  append_page (error e) out = error e

  -- What `mkqd list` shows on the first `n` pages.
  abbrev pub pages : Answer (List Bytes) → Bytes → Bytes → Bool → ℕ → ℕ → Answer (List JobView)
  pages conf name bucket asc k zero = got []
  pages conf name bucket asc k (suc n) =
      append_page (pages conf name bucket asc k n)
        (cmd_list R conf (page_flags n k asc) (name ∷ bucket ∷ []) s).0

  abbrev shown_page : Bytes → Bytes → ListFlags → List (Job × Option JobState) → ListOutput
  shown_page name bucket f listed = record {
    queue = name;
    bucket = bucket;
    page = f.page;
    size = f.size;
    jobs = map view_of listed;
  }

  list_page_got :
      (names present : List Bytes) (f : ListFlags) (name bucket : Bytes)
      (listed : List (Job × Option JobState))
      → R.discover s ≡ got present
      → mem_bytes name present ≡ true
      → R.list_jobs name bucket (first_index f) (last_index f) f.asc (R.define name s) ≡ got listed
      → list_page R (got names) f name bucket s
        ≡ (got (shown_page name bucket f listed), R.define name s)
  unfolding list_page open_inspector queue
  list_page_got names present f name bucket listed d m h = rw (d, m, h)

  module _ (names present : List Bytes) (name bucket : Bytes) (asc : Bool)
      (jobs : List (Job × Option JobState)) (d : R.discover s ≡ got present)
      (m : mem_bytes name present ≡ true) (b : mem_bytes bucket buckets ≡ true)
      (listed : AreListed name bucket asc jobs) where
    listed_page :
        (n k : ℕ)
        → 1 ≤ k
        → n * k + k ≤ max_int64
        → R.list_jobs name bucket
            (first_index (page_flags n k asc))
            (last_index (page_flags n k asc))
            asc
            (R.define name s)
          ≡ got (take k (drop (n * k) jobs))
    listed_page n k hk h = rw (
      first_index-page n k asc h,
      last_index-page n k asc hk h,
      listed (n * k) (n * k + k - 1) (omega arith),
      width,
    )
      where
        width : suc (n * k + k - 1) - n * k ≡ k
        width = omega arith

    cmd_list-got :
        (n k : ℕ)
        → 1 ≤ k
        → n * k + k ≤ max_int64
        → (cmd_list R (got names) (page_flags n k asc) (name ∷ bucket ∷ []) s).0
          ≡ got (shown_page name bucket (page_flags n k asc) (take k (drop (n * k) jobs)))
    unfolding cmd_list
    cmd_list-got n k hk h = rw (
      not_below n,
      at_least,
      b,
      list_page_got names present (page_flags n k asc) name bucket _ d m (listed_page n k hk h),
    )
      where
        not_below : (i : ℕ) → ltb_ℤ (pos i) (pos 0) ≡ false
        not_below i = ground arith

        at_least : ltb_ℤ (pos k) (pos 1) ≡ false
        at_least = ground (arith, hk)

    -- The first n pages of `mkqd list` of k jobs each, put together, show exactly the first n * k
    -- jobs of the bucket in the order of ListJobs, given that each page is shown of the same state,
    -- that ListJobs behind the Define of the queue gives the jobs between two indices with both
    -- included, that the queue and the bucket are known, that k is at least one, and that n * k
    -- fits int64.
    pub pages-prefix :
        (k n : ℕ)
        → 1 ≤ k
        → n * k ≤ max_int64
        → pages (got names) name bucket asc k n ≡ got (map view_of (take (n * k) jobs))
    pages-prefix k zero hk h = rw (zero_mul k)
    pages-prefix k (suc n) hk h = rw (
      pages-prefix k n hk (omega (arith, h, suc_mul n k)),
      cmd_list-got n k hk (omega (arith, h, suc_mul n k)),
      sym (map-append view_of (take (n * k) jobs) (take k (drop (n * k) jobs))),
      sym (take_add (n * k) k jobs),
      suc_mul n k,
    )

-- ===== src/AuditLog/Paging.antt =====
-- A client that reads page after page, each behind the last row of the one before.
use mathlib.Core.List.{append_assoc}
use glassops.Prelude.{
  ℕ, zero, suc, ◌-◌, ◌<◌, ◌≡◌, refl, sym, ap, ◌∙◌, Bool, ◌&&◌, Option, none, some, List, [], ◌∷◌,
  ◌++◌, arith, keep, keep_and, take, drop, length, take-append-drop, length-drop,
}
use glassops.Prelude.Sorting.{
  order_by, IsOrder, Ordered, Distinct, order_by-Ordered, order_by-keep, keep-Distinct, keep-before,
}
use glassops.AuditLog.{
  EventRow, AuditTables, Filters, matches, behind, newest_first, page_length, get_net_conn_events,
}

abbrev pub id_of : EventRow → ℕ
id_of r = r.id

newest_first-IsOrder : IsOrder newest_first id_of
unfolding newest_first
newest_first-IsOrder = record {
  trans = λ x y z p q. ground (arith, p, q);
  total = λ x y ne p. ground (arith, ne, p);
  asym = λ x y p. ground (arith, p);
}

abbrev pub last_row : EventRow → List EventRow → EventRow
last_row x [] = x
last_row x (y ∷ ys) = last_row y ys

-- The pages from a cursor on, until one is empty.
unfoldable pub pages : ℕ → Filters → ℕ → Option ℕ → Option ℕ → AuditTables → List EventRow
pages zero q limit before_ts before_id t = []
pages (suc fuel) q limit before_ts before_id t =
    elim (get_net_conn_events q before_ts before_id limit t) [
      | [] ↦ []
      | x ∷ xs ↦
          let last = last_row x xs in
          (x ∷ xs) ++ pages fuel q limit (some last.entry.ts) (some last.id) t
    ]

-- A list that is not empty ends with its last row.
all_but_last : EventRow → List EventRow → List EventRow
all_but_last x [] = []
all_but_last x (y ∷ ys) = x ∷ all_but_last y ys

last_row-append :
    (x : EventRow) (xs : List EventRow) → all_but_last x xs ++ (last_row x xs ∷ []) ≡ x ∷ xs
unfolding all_but_last
last_row-append x [] = refl
last_row-append x (y ∷ ys) = ap (λ (zs : List EventRow). x ∷ zs) (last_row-append y ys)

behind-newest_first : (x : EventRow) → behind (some x.entry.ts) (some x.id) ≡ newest_first x
unfolding behind newest_first
behind-newest_first x = refl

module _ (q : Filters) (limit : ℕ) (t : AuditTables) (u : Distinct id_of t.events) where
  abbrev all_rows : List EventRow
  all_rows = order_by newest_first (keep (matches q) t.events)

  all_rows-Ordered : Ordered newest_first all_rows
  all_rows-Ordered =
      order_by-Ordered newest_first-IsOrder (keep (matches q) t.events)
        (keep-Distinct id_of (matches q) t.events u)

  rows_behind :
      (p : EventRow → Bool)
      → order_by newest_first (keep (λ r. matches q r && p r) t.events) ≡ keep p all_rows
  rows_behind p = rw (keep_and (matches q) p t.events) (
      order_by-keep newest_first-IsOrder p (keep (matches q) t.events)
        (keep-Distinct id_of (matches q) t.events u))

  page_behind :
      (before_ts before_id : Option ℕ) (rest : List EventRow)
      → keep (behind before_ts before_id) all_rows ≡ rest
      → get_net_conn_events q before_ts before_id limit t ≡ take (page_length limit) rest
  unfolding get_net_conn_events
  page_behind before_ts before_id rest e =
      ap (take (page_length limit)) (rows_behind (behind before_ts before_id) ∙ e)

  page_length_pos : (n : ℕ) × (page_length limit ≡ suc n)
  unfolding page_length
  page_length_pos = (page_length limit - 1, omega arith)

  -- The rows, split at the last row of a page.
  split_page :
      (n : ℕ) (done : List EventRow) (y : EventRow) (ys : List EventRow)
      → all_rows ≡ done ++ (y ∷ ys)
      → let page = take n ys in
        all_rows ≡ (done ++ all_but_last y page) ++ (last_row y page ∷ drop n ys)
  split_page n done y ys all =
      let page = take n ys in
      let whole : all_but_last y page ++ (last_row y page ∷ drop n ys) ≡ y ∷ ys =
        sym (append_assoc (all_but_last y page) (last_row y page ∷ []) (drop n ys))
        ∙ ap (λ (zs : List EventRow). zs ++ drop n ys) (last_row-append y page)
        ∙ ap (λ (zs : List EventRow). y ∷ zs) (take-append-drop n ys) in
      all
      ∙ ap (λ (zs : List EventRow). done ++ zs) (sym whole)
      ∙ sym (append_assoc done (all_but_last y page) (last_row y page ∷ drop n ys))

  behind_last :
      (done : List EventRow) (x : EventRow) (rest : List EventRow)
      → all_rows ≡ done ++ (x ∷ rest)
      → keep (behind (some x.entry.ts) (some x.id)) all_rows ≡ rest
  behind_last done x rest all =
      let sorted = rw all at all_rows-Ordered in
      rw (behind-newest_first x, all) (keep-before newest_first-IsOrder done x rest sorted)

  -- With enough rounds, the pages behind the rows read so far are the rows that are left.
  pages_from :
      (fuel : ℕ) (before_ts before_id : Option ℕ) (done rest : List EventRow)
      → keep (behind before_ts before_id) all_rows ≡ rest
      → all_rows ≡ done ++ rest
      → length rest < fuel
      → pages fuel q limit before_ts before_id t ≡ rest
  unfolding pages
  pages_from zero before_ts before_id done rest e all lt = absurd (omega arith)
  pages_from (suc fuel) before_ts before_id done [] e all lt =
      let (n, one) = page_length_pos in rw (pages, page_behind before_ts before_id [] e, one) refl
  pages_from (suc fuel) before_ts before_id done (y ∷ ys) e all lt =
      let (n, one) = page_length_pos in
      let page = take n ys in
      let x = last_row y page in
      let init = all_but_last y page in
      let later = drop n ys in
      let split = split_page n done y ys all in
      let further =
        pages_from fuel (some x.entry.ts) (some x.id) ((done ++ init) ++ (x ∷ [])) later
          (behind_last (done ++ init) x later split)
          (split ∙ sym (append_assoc (done ++ init) (x ∷ []) later))
          (omega (arith, length-drop n ys)) in
      rw (pages, page_behind before_ts before_id (y ∷ ys) e, one, further)
        (ap (λ (zs : List EventRow). y ∷ zs) (take-append-drop n ys))

  no_cursor : (rows : List EventRow) → keep (behind none none) rows ≡ rows
  unfolding behind
  no_cursor [] = refl
  no_cursor (x ∷ xs) = rw (no_cursor xs) refl

pub pages_complete :
    (q : Filters) (limit fuel : ℕ) (t : AuditTables)
    → Distinct id_of t.events
    → length (order_by newest_first (keep (matches q) t.events)) < fuel
    → pages fuel q limit none none t ≡ order_by newest_first (keep (matches q) t.events)
pages_complete q limit fuel t u enough =
    pages_from q limit t u fuel none none [] (all_rows q limit t u)
      (no_cursor q limit t u (all_rows q limit t u)) refl enough

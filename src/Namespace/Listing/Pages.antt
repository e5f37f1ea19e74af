-- ===== src/Namespace/Listing/Pages.antt =====
-- src/fdw/attach_namespace.rs: the loops over the pages of a listing.
use pglance.Base.{ℕ, zero, suc, ◌≡◌, Option, none, some, List, ◌++◌, Text, Result, ok}
use pglance.Namespace.Listing.{Page, next_token, page_loop}

-- The names that a server hands out from a token on, in at most so many pages.
pub data Served (request : Option Text → Result Text Page)
    : ℕ → Option Text → List Text → Type 0 where
  last :
      {k : ℕ} {token : Option Text} {names : List Text} (page : Page)
      → request token ≡ ok page
      → next_token page.page_token ≡ none
      → names ≡ page.names
      → Served request (suc k) token names
  more :
      {k : ℕ} {token : Option Text} {names : List Text} (page : Page) (next : Text)
      (rest : List Text)
      → request token ≡ ok page
      → next_token page.page_token ≡ some next
      → Served request k (some next) rest
      → names ≡ page.names ++ rest
      → Served request (suc k) token names

-- The loop handles the pages as it would handle one page with all names.
pub page_loop-Served :
    {S : Type 0} (request : Option Text → Result Text Page) (visit : S → List Text → S)
    → ((s : S) (xs ys : List Text) → visit (visit s xs) ys ≡ visit s (xs ++ ys))
    → (k : ℕ) (token : Option Text) (names : List Text) (s : S) → Served request k token names
    → page_loop request visit k token s ≡ some (ok (visit s names))
unfolding page_loop
page_loop-Served request visit joins zero token names s served = elim served [ ]
page_loop-Served request visit joins (suc k) token names s (last page e t n) =
    rw (e, page_loop) (rw (t, page_loop) (rw n))
page_loop-Served request visit joins (suc k) token names s (more page next rest e t served n) =
    rw (e, page_loop)
      (rw (t, page_loop)
        (rw n (
          rw (← joins s page.names rest)
            (page_loop-Served request visit joins k (some next) rest (visit s page.names) served))))

-- ===== src/Ws/Request.antt =====
-- repo/ws/server.go and repo/ws/http.go: where the header of an upgrade request ends, also while it
-- comes in pieces, and what its first line holds.
use mathlib.Core.List.{append_assoc}
use longcom.Base.{
  subst, ℕ, suc, ◌+◌, ◌≤◌, ◌≡◌, refl, sym, ◌∙◌, inl, inr, true, [], ◌∷◌, ◌++◌, none, some, Text,
  length, length-append, if◌then◌else◌, nat_eq, arith, ltb, Bool-cases, Option-cases,
}
use longcom.Base.Bytes.{drop, take-prefix, take-append}
use longcom.Ws.Frame.{taken, refused, need_more_data}
use longcom.Ws.Http.{
  starts_with, index_of, header_end, crlf, take_upgrade_http_header, bsplit3, first_line,
}

starts_with-append :
    (sep t u : Text) → length sep ≤ length t → starts_with sep (t ++ u) ≡ starts_with sep t
unfolding starts_with
starts_with-append [] t u h = refl
starts_with-append (a ∷ sep) [] u h = absurd (omega arith)
starts_with-append (a ∷ sep) (b ∷ t) u h = ground (arith, starts_with-append sep t u)

starts_with_fits : (sep t : Text) → starts_with sep t ≡ true → length sep ≤ length t
unfolding starts_with
starts_with_fits [] t e = omega arith
starts_with_fits (a ∷ sep) [] e = absurd (ground arith)
starts_with_fits (a ∷ sep) (b ∷ t) e = ground (arith, starts_with_fits sep t)

-- The separator stands where it was found.
index_of_fits : (sep t : Text) (i : ℕ) → index_of sep t ≡ some i → i + length sep ≤ length t
unfolding index_of
index_of_fits sep [] i e = ground (arith, starts_with_fits sep [])
index_of_fits sep (b ∷ t) i e = elim (Option-cases (index_of sep t)) [
  | inl n ↦ ground (arith, n, e, starts_with_fits sep (b ∷ t))
  | inr (j, n) ↦ ground (arith, n, e, starts_with_fits sep (b ∷ t), index_of_fits sep t j n)
]

-- What follows does not change where the separator was found first.
index_of-append :
    (sep t u : Text) (i : ℕ) → index_of sep t ≡ some i → index_of sep (t ++ u) ≡ some i
unfolding index_of
index_of-append [] [] [] i e = e
index_of-append [] [] (c ∷ u) i e = e
index_of-append (a ∷ sep) [] u i e = absurd (ground arith)
index_of-append sep (b ∷ t) u i e = elim (Option-cases (index_of sep t)) [
  | inl n ↦ ground (arith, n, e, starts_with_fits sep (b ∷ t), starts_with-append sep (b ∷ t) u)
  | inr (j, n) ↦ ground (
    arith,
    n,
    e,
    starts_with-append sep (b ∷ t) u,
    index_of_fits sep t j n,
    index_of-append sep t u j n,
  )
]

index_of_restricted :
    (sep t x : Text) (i : ℕ)
    → index_of sep (t ++ x) ≡ some i
    → i + length sep ≤ length t
    → index_of sep t ≡ some i
unfolding index_of starts_with
index_of_restricted [] [] [] i e h = e
index_of_restricted [] [] (c ∷ x) i e h = e
index_of_restricted (a ∷ sep) [] x i e h = absurd (omega arith)
index_of_restricted sep (b ∷ t) x i e h = elim (Option-cases (index_of sep (t ++ x))) [
  | inl n ↦ ground (arith, n, e, starts_with-append sep (b ∷ t) x)
  | inr (j, n) ↦
      ground (arith, n, e, starts_with-append sep (b ∷ t) x, index_of_restricted sep t x j n)
]

-- The separator has been found in `t` where it is in anything that `t` starts, if it is there whole.
index_of-cut :
    (sep t x : Text) (i : ℕ)
    → index_of sep (t ++ x) ≡ some i
    → index_of sep t ≡ (if ltb (length t) (i + length sep) then none else some i)
index_of-cut sep t x i e = elim (Option-cases (index_of sep t)) [
  | inl n ↦ ground (arith, n, index_of_restricted sep t x i e)
  | inr (j, n) ↦ ground (arith, n, e, index_of_fits sep t j n, index_of-append sep t x j n)
]

index_of_here :
    (sep h y : Text)
    → index_of sep (h ++ sep) ≡ some (length h)
    → index_of sep (h ++ (sep ++ y)) ≡ some (length h)
index_of_here sep h y e =
    subst (λ t. index_of sep t ≡ some (length h)) (append_assoc h sep y)
      (index_of-append sep (h ++ sep) y (length h) e)

drop_past : (xs : Text) (b : ℕ) (ys : Text) → drop (suc (length xs)) (xs ++ b ∷ ys) ≡ ys
drop_past [] b ys = refl
drop_past (x ∷ xs) b ys = drop_past xs b ys

-- A header with no empty line in it.
abbrev pub IsHeader : Text → Type 0
IsHeader h = index_of header_end (h ++ header_end) ≡ some (length h)

-- Of bytes that agree with a header, its empty line and what follows as far as both go,
-- `TakeUpgradeHTTPHeader` takes the header if the empty line is there, and asks for more otherwise.
pub take_upgrade_http_header-cut :
    (h inbound x y : Text)
    → IsHeader h
    → inbound ++ x ≡ (h ++ header_end) ++ y
    → take_upgrade_http_header inbound ≡ (
        if ltb (length inbound) (length (h ++ header_end))
        then refused need_more_data
        else taken (length (h ++ header_end)) h)
unfolding take_upgrade_http_header
take_upgrade_http_header-cut h inbound x y v cut =
    let e = index_of-cut header_end inbound x (length h) (
      subst (λ t. index_of header_end t ≡ some (length h)) (sym (cut ∙ append_assoc h header_end y))
        (index_of_here header_end h y v)) in
    let size = length-append h header_end in
    let agrees = cut ∙ append_assoc h header_end y in
    rw e (elim (Bool-cases (ltb (length inbound) (length h + 4))) [
      | inl d ↦ ground (arith, d, size)
      | inr d ↦
          ground (
            arith,
            d,
            size,
            (take-prefix h inbound x (header_end ++ y) agrees (ground (arith, d))).0,
          )
    ])

-- A request line with a method and a URI that have no blank in them.
pub bsplit3-line :
    (method uri proto : Text)
    → index_of (32 ∷ []) (method ++ 32 ∷ []) ≡ some (length method)
    → index_of (32 ∷ []) (uri ++ 32 ∷ []) ≡ some (length uri)
    → bsplit3 (method ++ 32 ∷ (uri ++ 32 ∷ proto)) ≡ (method, uri, proto)
unfolding bsplit3
bsplit3-line method uri proto m u =
    rw
      (
        index_of_here (32 ∷ []) method (uri ++ 32 ∷ proto) m,
        drop_past method 32 (uri ++ 32 ∷ proto),
        index_of_here (32 ∷ []) uri proto u,
        drop_past method 32 (uri ++ 32 ∷ proto),
        drop_past uri 32 proto,
        take-append (length method) method (32 ∷ (uri ++ 32 ∷ proto)) refl,
        take-append (length uri) uri (32 ∷ proto) refl,
      )
      refl

pub first_line-lem :
    (line rest : Text)
    → index_of crlf (line ++ crlf) ≡ some (length line)
    → first_line (line ++ (crlf ++ rest)) ≡ line
unfolding first_line
first_line-lem line rest e =
    rw (index_of_here crlf line rest e) (take-append (length line) line (crlf ++ rest) refl)

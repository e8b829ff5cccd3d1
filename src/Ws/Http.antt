-- ===== src/Ws/Http.antt =====
-- repo/ws/server.go and repo/ws/http.go: the header of the upgrade request and its first line.
-- `httpParseVersion` of the library is a parameter.
use longcom.Base.{
  ℕ, suc, ◌+◌, Bool, true, false, ◌&&◌, [], ◌∷◌, Option, none, some, Text, take, if◌then◌else◌,
  ◌==◌, nat_eq,
}
use longcom.Base.Bytes.{drop}
use longcom.Ws.Frame.{Taken, taken, refused, need_more_data}

abbrev pub crlf : Text
crlf = 13 ∷ 10 ∷ []

abbrev pub header_end : Text
header_end = 13 ∷ 10 ∷ 13 ∷ 10 ∷ []

abbrev pub next_index : Option ℕ → Option ℕ
next_index none = none
next_index (some i) = some (suc i)

-- The text starts with the separator.
unfoldable pub starts_with : Text → Text → Bool
starts_with [] t = true
starts_with (a ∷ sep) [] = false
starts_with (a ∷ sep) (b ∷ t) = (a == b) && starts_with sep t

-- `bytes.Index`
unfoldable pub index_of : Text → Text → Option ℕ
unfolding starts_with
index_of sep [] = if starts_with sep [] then some 0 else none
index_of sep (b ∷ t) =
    let rest = next_index (index_of sep t) in if starts_with sep (b ∷ t) then some 0 else rest

abbrev taken_header : Text → Option ℕ → Taken
taken_header inbound none = refused need_more_data
taken_header inbound (some idx) = taken (idx + 4) (take idx inbound)

-- `TakeUpgradeHTTPHeader`
unfoldable pub take_upgrade_http_header : Text → Taken
unfolding index_of
take_upgrade_http_header inbound = taken_header inbound (index_of header_end inbound)

-- `bsplit3` with the blank as the separator. With no first blank Go looks for the second from the
-- start, and finds none.
abbrev split_rest : Text → ℕ → Option ℕ → Text × Text × Text
split_rest bts a none = (bts, [], [])
split_rest bts a (some b) = (take a bts, take b (drop (suc a) bts), drop (suc b) (drop (suc a) bts))

abbrev split_at : Text → Option ℕ → Text × Text × Text
split_at bts none = (bts, [], [])
split_at bts (some a) = split_rest bts a (index_of (32 ∷ []) (drop (suc a) bts))

unfoldable pub bsplit3 : Text → Text × Text × Text
unfolding index_of
bsplit3 bts = split_at bts (index_of (32 ∷ []) bts)

-- `ws.HttpRequestLine`
pub record HttpRequestLine : Type 0 where
  pub method : Text
  pub uri : Text
  pub major : ℕ
  pub minor : ℕ

module _ (http_parse_version : Text → Option (ℕ × ℕ)) where
  abbrev request_line : Text → Text → Option (ℕ × ℕ) → Option HttpRequestLine
  request_line method uri none = none
  request_line method uri (some (major, minor)) =
      some (record { method = method; uri = uri; major = major; minor = minor })

  -- `HttpParseRequestLine`; its error is `none`.
  unfoldable pub http_parse_request_line : Text → Option HttpRequestLine
  unfolding bsplit3
  http_parse_request_line line =
      let (method, uri, proto) = bsplit3 line in request_line method uri (http_parse_version proto)

-- The first of the lines that `bytes.Split` makes at each CR LF.
abbrev pub first_part : Text → Option ℕ → Text
first_part inbound none = inbound
first_part inbound (some i) = take i inbound

unfoldable pub first_line : Text → Text
unfolding index_of
first_line inbound = first_part inbound (index_of crlf inbound)

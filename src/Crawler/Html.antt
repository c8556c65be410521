-- ===== src/Crawler/Html.antt =====
-- What the crawler takes from the HTML library (libhtmlparser, a copy of htmlcxx): URIs, and the
-- anchors of a page. `parse` is the constructor of Uri, which may throw (`none`).
use crowdspider.Base.{Bytes, Option, List}

pub record Html : Type 1 where
  pub Uri : Type 0
  pub parse : Bytes → Option Uri
  pub hostname : Uri → Bytes
  pub path : Uri → Bytes
  pub unparse : Uri → Bytes
  -- the `href` of each `a` element of a page, in document order
  pub hrefs : Bytes → List Bytes

-- ===== src/Tests/Crawler.antt =====
-- The crawler: runs and instances, over an HTML library whose URIs are texts.
use crowdspider.Base.{
  ◌⊎◌, ◌≤◌, ℕ, ◌≡◌, ◌↔◌, refl, some, true, false, [], ◌∷◌, codes, Bytes, arith, bytes_eq, to_lower,
}
use crowdspider.Base.Find.{find, is_prefix, find_last, contains}
use crowdspider.Base.Int.{pos}
use crowdspider.Crawler.Html.{Html}
use crowdspider.Crawler.{
  Crawler, fresh, start, check_url, check_ur, check_uv, check_vu, flush, member, fetch_url, front,
}
use crowdspider.Crawler.FileName.{file_name, file_name_inj}
use crowdspider.Crawler.Filter.{is_filter_link, again, repeats, contains_any}
use crowdspider.Crawler.Filter.Spam.{Spam, is_filter_link_iff_Spam}
use crowdspider.Crawler.Links.{
  parse_hyperlinks, parse_links, consider, wanted, ask, check_file, check_ext, enqueue, after_last,
  lower_c_str, is_html_ext,
}
use crowdspider.Crawler.Worker.{
  Job, downloads, begin, with_entry, with_uri, with_check, with_number, finish,
}
use crowdspider.Crawler.Threads.{
  Phase, loop_head, fetching, ready, loading, loaded, act, holds_uq, holds_fetch, World, acted,
  locked, downloaded, Reach, here, next, Reach-trans, initial,
}
use crowdspider.Crawler.Rounds.{Leads, begin-Reach, finish-Reach}
use crowdspider.Crawler.Queue.{Took, begin-Took, Extends, finish-Extends}
use crowdspider.Crawler.Visited.{crawl_never_refuses}

-- A URI is its text and its path too; every page has the same two anchors.
abbrev toy : Html
toy = record {
  Uri = Bytes;
  parse = λ s. some s;
  hostname = λ u. codes "h";
  path = λ u. u;
  unparse = λ u. u;
  hrefs = λ page. codes "http://h/b.HTM" ∷ codes "http://h/c.gif" ∷ [];
}

abbrev home : Bytes
home = codes "http://h/a.html"

abbrev begun : Crawler
begun = start home [] [] []

abbrev job : Job toy
job = record {
  entry = record { url = home; depth = 0 };
  uri = home;
  seq = 0;
  savefile = codes "f000000000.html";
}

abbrev taken : Crawler
taken = record begun { uri_que = []; fseq = 1 }

abbrev parsed : Crawler
parsed = record taken {
  visited_file = home ∷ [];
  uri_que = record { url = codes "http://h/b.HTM"; depth = 1 } ∷ [];
}

begin_home : begin toy begun ≡ downloads job taken
unfolding begin with_entry with_uri with_check with_number fetch_url front check_url flush member
    file_name
begin_home = refl

finish_home : finish toy taken job (pos 0) (codes "page") ≡ some parsed
unfolding finish parse_hyperlinks parse_links consider wanted ask check_file check_ext enqueue
    after_last lower_c_str is_html_ext check_url flush member bytes_eq find_last to_lower
finish_home = refl

begin-Took_example : Took toy begun job taken
begin-Took_example = begin-Took toy begun taken job begin_home

finish-Extends_example : Extends 1 taken parsed × ((0 ≤ 3) ⊎ (parsed.uri_que ≡ taken.uri_que))
finish-Extends_example = finish-Extends toy taken parsed job (pos 0) (codes "page") finish_home

-- Every URL may serve every page.
abbrev AnyPage : Bytes → Bytes → Type 0
AnyPage url html = Unit

abbrev at : Phase toy → Crawler → World toy
at p c = record { crawler = c; workers = p ∷ [] }

abbrev one_worker : World toy
one_worker = initial toy 1 home [] [] []

to_fetch : Reach toy AnyPage one_worker (at fetching begun)
unfolding act
to_fetch = next here (acted one_worker 0 loop_head (fetching, begun) refl refl)

to_phase : Leads toy AnyPage (at fetching begun) 0 (begin toy begun)
unfolding holds_uq
to_phase = begin-Reach toy AnyPage (at fetching begun) 0 (refl, tt) refl

to_ready : Reach toy AnyPage (at fetching begun) (at (ready job) taken)
to_ready = rw begin_home at to_phase

to_loaded : Reach toy AnyPage (at (ready job) taken) (at (loaded job (pos 0) (codes "page")) taken)
unfolding holds_fetch
to_loaded =
    next (next here (locked (at (ready job) taken) 0 job refl (refl, tt)))
      (downloaded (at (loading job) taken) 0 job (pos 0) (codes "page") refl tt)

to_end : Reach toy AnyPage (at (loaded job (pos 0) (codes "page")) taken) (at loop_head parsed)
unfolding holds_uq
to_end =
    finish-Reach toy AnyPage (at (loaded job (pos 0) (codes "page")) taken) 0 (refl, tt) parsed job
      (pos 0) (codes "page") refl finish_home

first_page : Reach toy AnyPage one_worker (at loop_head parsed)
first_page =
    Reach-trans toy AnyPage (Reach-trans toy AnyPage to_fetch to_ready)
      (Reach-trans toy AnyPage to_loaded to_end)

-- The page that was just saved as visited is fetched again.
crawl_never_refuses_example :
    ((check_url parsed (codes "h") home).0 ≡ fresh)
    × ((check_ur parsed (codes "h")).0 ≡ false)
    × ((check_uv parsed home).0 ≡ false)
    × ((check_vu parsed home).0 ≡ false)
crawl_never_refuses_example =
    crawl_never_refuses toy AnyPage 1 home [] [] [] (at loop_head parsed) (codes "h") home
      first_page

is_filter_link_iff_Spam_example :
    (is_filter_link (codes "http://h/?a?b") ≡ true) ↔ Spam (codes "http://h/?a?b")
is_filter_link_iff_Spam_example = is_filter_link_iff_Spam (codes "http://h/?a?b")

filter_accepts : is_filter_link (codes "http://h/a.html") ≡ false
unfolding is_filter_link repeats again contains_any contains find is_prefix to_lower
filter_accepts = refl

file_name_inj_example : ◌≡◌ {A = ℕ} 7 7
file_name_inj_example = file_name_inj 7 7 (omega arith) (omega arith) refl

-- ===== src/Lib.antt =====
-- Verification library of jacklet, a Torznab server that answers from scraped trackers.
--
-- The program's parts. A client's search reaches `pkg/torznab`, which finds the tracker definitions
-- it addresses (one by id, all of them, or those that a filter expression covers), asks
-- `pkg/scraper` to search each tracker on the web, and answers from the store of `pkg/database`,
-- into which every search writes its rows. `pkg/scraper` decides when a tracker may be asked: one
-- search at a time leads, identical ones follow it and read what it published, and a failing tracker
-- is left alone. `pkg/admin` is the panel in which trackers are configured, behind a sign-in.
--
-- Which file models which part:
--   Scrape: pkg/scraper/scraper.go (planScrape, finishScrape, pruneRecentLocked, and how Scrape
--     uses them), pkg/scraper/status.go, and the errors of pkg/scraper/requestdelay.go.
--     Scrape/Flights has the steps that the mutex makes atomic, planning and finishing, and the
--     states that they reach in any order; Followers, Spacing, Outcome and Queue what they promise.
--   Bencode: pkg/torznab/bencode.go, the check and the canonical form of a torrent file.
--     Bencode/Grammar describes the format by itself, as data and its two ways of being written.
--   Session: pkg/admin/session.go, the panel's sessions.
--   IndexerFilter: pkg/torznab/indexerfilter.go, the expressions that stand for a set of indexers,
--     with the trackers' health as Scrape keeps it.
--   CategoryColumn: pkg/database/categories.go, a row's categories in the store.
--   Categories: pkg/scraper/categories.go: the standard categories, the tracker's own categories that
--     a search is sent with, and (Categories/Listed) what a definition advertises and a row is given.
--     Categories/Expanded and Custom describe the groups and the custom numbers by themselves.
--   Indexer: pkg/torznab/aggregate.go, and restrictedTo, types and categoryNames of
--     pkg/torznab/results.go: the set of definitions that a request is answered from. The searches of
--     its trackers, which run at once, are entries of one list, each in its tracker's place.
--   Query: SearchParams in pkg/scraper/scraper.go: the text that a tracker is sent, what templates
--     read of it (queryParams in pkg/scraper/filters.go), and the key that planScrape gets.
--   Tracker: pkg/scraper/definitions.go, what the other parts read of a tracker's definition: its id,
--     its categories and the search modes that it declares.
--   DefinitionStore: pkg/scraper/store.go, the definition files and the cache of what was read of
--     them. Requests are the calls, each with the directory as it stands then.
--   SignIn: pkg/admin/login.go, which client an attempt to sign in is counted against, and how the
--     attempts of one client are spaced.
--   Item: pkg/torznab/item.go, what a client sees of a stored torrent, and the row itself
--     (pkg/scraper/torrent.go).
--   JsonResult: pkg/torznab/results.go, a row and an indexer's part in a search as Jackett's JSON.
--   NameSearch: pkg/database/search.go, the patterns that a torrent's name is compared with.
--   DateLayout: pkg/scraper/datelayout.go, a .NET date format as a Go layout, and the variants of a
--     value that the layout reads. DateLayout/Pieces describes the formats by themselves.
--   Prelude: Boolean tests, lists, Go's maps (functions from keys), strings, bytes.Compare's
--     relatives, strconv and strings on ASCII text.
--
-- How state corresponds. A Go map is a function from keys to options, or a list of entries with each
-- key once where the code goes through all of it. A pointer to a flight is a
-- place in a store of flights, so that the leader's copy, the map's and the followers' are one. A
-- channel is the Boolean that tells whether it is closed, and closing it twice is `none`, the panic.
-- A time is a number of nanoseconds, read once per operation; differences below zero are written out
-- where the code could meet one. A position in a byte slice is the suffix that starts there. A byte
-- is a natural number, and a 64-bit integer is checked against its bounds where text is read. The
-- rows that a search returns are any type. Where the bencode writer ignores an error, which it may
-- since it writes only what was checked, the model stops at a fault of its own (`trusted`).
--
-- Fuel. `scan_bencode` and `append_bencode` recur on fuel; `canonical_torrent` gives twice the length
-- of the data and one, since every call consumes a byte or goes from a loop to a value, and it is
-- proved that no input exhausts it. `go_layout_from_dot_net` gives `convert` the length of the format
-- and one, since every turn consumes a character, and it is proved that no format exhausts it. `emit`
-- has as much fuel as the number it writes.
--
-- What is a parameter: the system's random tokens, SHA-1 (with the length of its
-- sums), the reading of a definition from YAML, the
-- addresses of net/netip, fmt's %q, net/url's escaping, floating-point numbers, what the search of one
-- tracker ends with, parsing and writing times by package time, and SQLite's `instr` and LIKE, these
-- with what SQLite documents of them. What is not modelled: requests and responses, HTML and
-- templates, the SQL statements, definition files as YAML, and the Windows service; text is ASCII
-- where the code lowers its case or trims it.
pub mod Prelude
pub mod Tracker
pub mod DateLayout
pub mod DefinitionStore
pub mod Scrape
pub mod Session
pub mod SignIn
pub mod Indexer
pub mod IndexerFilter
pub mod Item
pub mod JsonResult
pub mod NameSearch
pub mod CategoryColumn
pub mod Query
pub mod Categories
pub mod Bencode

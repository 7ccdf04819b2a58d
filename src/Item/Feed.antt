-- ===== src/Item/Feed.antt =====
-- An item of the feed. What package time, fmt and net/url do to a text is an argument.
use jacklet.Prelude.{
  Bool, Option, none, some, List, [], ◌∷◌, ◌++◌, if◌then◌else◌, ◌==◌, ℕ-Eq, Bytes, codes, Bytes-Eq,
}
use jacklet.Prelude.Int.{ℤ, ℤ-Eq}
use jacklet.Prelude.Ascii.{has_prefix}
use jacklet.Categories.{int_text}
use jacklet.Item.{Torrent, Attribute, item_categories, summary, guid, attributes}

pub record Guid : Type 0 where
  pub is_perma_link : Bytes
  pub value : Bytes

pub record Enclosure : Type 0 where
  pub size : ℤ
  pub content_type : Bytes
  pub url : Bytes

pub record Item : Type 0 where
  pub title : Bytes
  pub id : Guid
  pub link : Bytes
  pub comments : Bytes
  pub published : Bytes
  pub categories : List Bytes
  pub description : Bytes
  pub enclosure : Enclosure
  pub attrs : List Attribute

-- `parse` reads an RFC 3339 time, `format` writes RFC 1123Z.
unfoldable pub pub_date : {F T : Type 0} → (Bytes → Option T) → (T → Bytes) → T → Torrent F → Bytes
pub_date parse format now row = elim (parse row.published) [ none ↦ format now | some t ↦ format t ]

abbrev pub with_key : (Bytes → Bytes) → Bytes → Bytes → Bytes
with_key encode link [] = link
with_key encode link (b ∷ key) = link ++ (codes "?" ++ encode (b ∷ key))

abbrev pub link_of :
    {F : Type 0}
    → (Bytes → Bytes)
    → (Bytes → Bytes)
    → Torrent F
    → Bytes
    → Bytes
    → Bytes
    → Bytes
    → Bytes
unfolding has_prefix int_text
link_of path_escape encode row base_url indexer_id api_key [] = row.magnet
link_of path_escape encode row base_url indexer_id api_key (b ∷ url) =
    if has_prefix (b ∷ url) (codes "magnet:")
    then b ∷ url
    else with_key encode
        (base_url
          ++ (codes "/api/v2.0/indexers/"
              ++ (path_escape indexer_id ++ (codes "/download/" ++ int_text row.id))))
        api_key

-- `encode` writes the query of a key, `path_escape` a segment of a path.
unfoldable pub download_link :
    {F : Type 0} → (Bytes → Bytes) → (Bytes → Bytes) → Torrent F → Bytes → Bytes → Bytes → Bytes
unfolding link_of
download_link path_escape encode row base_url indexer_id api_key =
    link_of path_escape encode row base_url indexer_id api_key row.download_url

abbrev pub torrent_content_type : Bytes
torrent_content_type = codes "application/x-bittorrent"

module _ {F T : Type 0} (format_factor : F → Bytes) (is_positive : F → Bool)
    (parse : Bytes → Option T) (format : T → Bytes) (now : T) where
  unfoldable pub to_torznab_item : Torrent F → Bytes → Item
  unfolding guid pub_date item_categories summary attributes
  to_torznab_item row link = record {
    title = row.name;
    id = record {
      is_perma_link = if row.details_url == [] then codes "false" else codes "true";
      value = guid row;
    };
    link = link;
    comments = row.details_url;
    published = pub_date parse format now row;
    categories = item_categories row.categories;
    description = summary row;
    enclosure = record { size = row.size; content_type = torrent_content_type; url = link };
    attrs = attributes format_factor is_positive row;
  }

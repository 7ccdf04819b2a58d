-- ===== src/Categories/Standard.antt =====
-- The standard categories' names and numbers: `standardCategoryIDs` of pkg/scraper/categories.go.
use jacklet.Prelude.{ℕ, List, [], ◌∷◌, ℕ-Eq, Bytes, codes, Bytes-Eq}

unfoldable pub standard_category_ids : List (Bytes × ℕ)
standard_category_ids =
    (codes "Console", 1000)
    ∷ (codes "Console/NDS", 1010)
    ∷ (codes "Console/PSP", 1020)
    ∷ (codes "Console/Wii", 1030)
    ∷ (codes "Console/XBox", 1040)
    ∷ (codes "Console/XBox 360", 1050)
    ∷ (codes "Console/Wiiware", 1060)
    ∷ (codes "Console/XBox 360 DLC", 1070)
    ∷ (codes "Console/PS3", 1080)
    ∷ (codes "Console/Other", 1090)
    ∷ (codes "Console/3DS", 1110)
    ∷ (codes "Console/PS Vita", 1120)
    ∷ (codes "Console/WiiU", 1130)
    ∷ (codes "Console/XBox One", 1140)
    ∷ (codes "Console/PS4", 1180)
    ∷ (codes "Movies", 2000)
    ∷ (codes "Movies/Foreign", 2010)
    ∷ (codes "Movies/Other", 2020)
    ∷ (codes "Movies/SD", 2030)
    ∷ (codes "Movies/HD", 2040)
    ∷ (codes "Movies/UHD", 2045)
    ∷ (codes "Movies/BluRay", 2050)
    ∷ (codes "Movies/3D", 2060)
    ∷ (codes "Movies/DVD", 2070)
    ∷ (codes "Movies/WEB-DL", 2080)
    ∷ (codes "Audio", 3000)
    ∷ (codes "Audio/MP3", 3010)
    ∷ (codes "Audio/Video", 3020)
    ∷ (codes "Audio/Audiobook", 3030)
    ∷ (codes "Audio/Lossless", 3040)
    ∷ (codes "Audio/Other", 3050)
    ∷ (codes "Audio/Foreign", 3060)
    ∷ (codes "PC", 4000)
    ∷ (codes "PC/0day", 4010)
    ∷ (codes "PC/ISO", 4020)
    ∷ (codes "PC/Mac", 4030)
    ∷ (codes "PC/Mobile-Other", 4040)
    ∷ (codes "PC/Games", 4050)
    ∷ (codes "PC/Mobile-iOS", 4060)
    ∷ (codes "PC/Mobile-Android", 4070)
    ∷ (codes "TV", 5000)
    ∷ (codes "TV/WEB-DL", 5010)
    ∷ (codes "TV/Foreign", 5020)
    ∷ (codes "TV/SD", 5030)
    ∷ (codes "TV/HD", 5040)
    ∷ (codes "TV/UHD", 5045)
    ∷ (codes "TV/Other", 5050)
    ∷ (codes "TV/Sport", 5060)
    ∷ (codes "TV/Anime", 5070)
    ∷ (codes "TV/Documentary", 5080)
    ∷ (codes "XXX", 6000)
    ∷ (codes "XXX/DVD", 6010)
    ∷ (codes "XXX/WMV", 6020)
    ∷ (codes "XXX/XviD", 6030)
    ∷ (codes "XXX/x264", 6040)
    ∷ (codes "XXX/UHD", 6045)
    ∷ (codes "XXX/Pack", 6050)
    ∷ (codes "XXX/ImageSet", 6060)
    ∷ (codes "XXX/Other", 6070)
    ∷ (codes "XXX/SD", 6080)
    ∷ (codes "XXX/WEB-DL", 6090)
    ∷ (codes "Books", 7000)
    ∷ (codes "Books/Mags", 7010)
    ∷ (codes "Books/EBook", 7020)
    ∷ (codes "Books/Comics", 7030)
    ∷ (codes "Books/Technical", 7040)
    ∷ (codes "Books/Other", 7050)
    ∷ (codes "Books/Foreign", 7060)
    ∷ (codes "Other", 8000)
    ∷ (codes "Other/Misc", 8010)
    ∷ (codes "Other/Hashed", 8020)
    ∷ []

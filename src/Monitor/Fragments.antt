-- ===== src/Monitor/Fragments.antt =====
-- The word lists of backend/app/services/intel_target_urls.py.
use Prim.Native.String.{String}
use mathlib.Core.List.{List, [], ◌∷◌}

abbrev pub news_fragments : List String
news_fragments =
    "news" ∷ "nieuws" ∷ "blog" ∷ "blogs" ∷ "press" ∷ "pers" ∷ "media" ∷ "magazine" ∷ "stories"
    ∷ "story" ∷ "article" ∷ "articles" ∷ "insights" ∷ "updates" ∷ "announcements" ∷ "releases"
    ∷ "changelog" ∷ "release-notes" ∷ "events" ∷ "evenementen" ∷ "persbericht" ∷ "aktuelles"
    ∷ "nachrichten" ∷ []

abbrev pub jobs_fragments : List String
jobs_fragments =
    "career" ∷ "careers" ∷ "jobs" ∷ "job" ∷ "vacancy" ∷ "vacancies" ∷ "vacatures" ∷ "vacature"
    ∷ "werken-bij" ∷ "werkenbij" ∷ "werk-bij" ∷ "join-us" ∷ "joinus" ∷ "join-our-team" ∷ "hiring"
    ∷ "recruitment" ∷ "recruit" ∷ "openings" ∷ "open-positions" ∷ "positions" ∷ "stellenangebote"
    ∷ "stellenangebot" ∷ "karriere" ∷ "employment" ∷ []

abbrev pub exclude_substrings : List String
exclude_substrings =
    "/login" ∷ "/signin" ∷ "/signup" ∷ "/register" ∷ "/auth/" ∷ "/account" ∷ "/cart" ∷ "/checkout"
    ∷ "/privacy" ∷ "/terms" ∷ "/cookie" ∷ "/disclaimer" ∷ "/wp-admin" ∷ "/wp-content"
    ∷ "/wp-includes" ∷ "/admin" ∷ "/cdn/" ∷ "/assets/" ∷ "/static/" ∷ "/fonts/" ∷ "/images/"
    ∷ "/img/" ∷ "/favicon" ∷ []

abbrev pub exclude_extensions : List String
exclude_extensions =
    ".pdf" ∷ ".jpg" ∷ ".jpeg" ∷ ".png" ∷ ".gif" ∷ ".webp" ∷ ".svg" ∷ ".ico" ∷ ".zip" ∷ ".mp4"
    ∷ ".mp3" ∷ ".xml" ∷ ".rss" ∷ ".atom" ∷ []

abbrev pub bare_marketing_segments : List String
bare_marketing_segments =
    "about" ∷ "about-us" ∷ "over-ons" ∷ "contact" ∷ "pricing" ∷ "product" ∷ "products" ∷ "services"
    ∷ "solutions" ∷ "home" ∷ "team" ∷ "leadership" ∷ "customers" ∷ "clients" ∷ "faq" ∷ "support"
    ∷ "documentation" ∷ "docs" ∷ []

-- ===== src/Http/Texts.antt =====
-- picow_access_point.c: the texts, as the codes of their characters.
use pico_cpp.Common.{ℕ, List, [], ◌∷◌}

-- `HTTP_GET`.
abbrev pub http_get : List ℕ
http_get = 71 ∷ 69 ∷ 84 ∷ []

-- `LED_TEST`.
abbrev pub led_test : List ℕ
led_test = 47 ∷ 108 ∷ 101 ∷ 100 ∷ 116 ∷ 101 ∷ 115 ∷ 116 ∷ []

-- `LED_TEST_BODY`, between the three places that are filled in.
abbrev pub body_start : List ℕ
body_start =
    60 ∷ 104 ∷ 116 ∷ 109 ∷ 108 ∷ 62 ∷ 60 ∷ 98 ∷ 111 ∷ 100 ∷ 121 ∷ 62 ∷ 60 ∷ 104 ∷ 49 ∷ 62 ∷ 72 ∷ 101
    ∷ 108 ∷ 108 ∷ 111 ∷ 32 ∷ 102 ∷ 114 ∷ 111 ∷ 109 ∷ 32 ∷ 80 ∷ 105 ∷ 99 ∷ 111 ∷ 32 ∷ 87 ∷ 46 ∷ 60
    ∷ 47 ∷ 104 ∷ 49 ∷ 62 ∷ 60 ∷ 112 ∷ 62 ∷ 76 ∷ 101 ∷ 100 ∷ 32 ∷ 105 ∷ 115 ∷ 32 ∷ []

abbrev pub body_link : List ℕ
body_link =
    60 ∷ 47 ∷ 112 ∷ 62 ∷ 60 ∷ 112 ∷ 62 ∷ 60 ∷ 97 ∷ 32 ∷ 104 ∷ 114 ∷ 101 ∷ 102 ∷ 61 ∷ 34 ∷ 63 ∷ 108
    ∷ 101 ∷ 100 ∷ 61 ∷ []

abbrev pub body_turn : List ℕ
body_turn = 34 ∷ 62 ∷ 84 ∷ 117 ∷ 114 ∷ 110 ∷ 32 ∷ 108 ∷ 101 ∷ 100 ∷ 32 ∷ []

abbrev pub body_end : List ℕ
body_end =
    60 ∷ 47 ∷ 97 ∷ 62 ∷ 60 ∷ 47 ∷ 98 ∷ 111 ∷ 100 ∷ 121 ∷ 62 ∷ 60 ∷ 47 ∷ 104 ∷ 116 ∷ 109 ∷ 108 ∷ 62
    ∷ []

abbrev pub on_word : List ℕ
on_word = 79 ∷ 78 ∷ []

abbrev pub off_word : List ℕ
off_word = 79 ∷ 70 ∷ 70 ∷ []

-- `HTTP_RESPONSE_HEADERS`.
abbrev pub headers_start : List ℕ
headers_start = 72 ∷ 84 ∷ 84 ∷ 80 ∷ 47 ∷ 49 ∷ 46 ∷ 49 ∷ 32 ∷ []

abbrev pub headers_length : List ℕ
headers_length =
    32 ∷ 79 ∷ 75 ∷ 10 ∷ 67 ∷ 111 ∷ 110 ∷ 116 ∷ 101 ∷ 110 ∷ 116 ∷ 45 ∷ 76 ∷ 101 ∷ 110 ∷ 103 ∷ 116
    ∷ 104 ∷ 58 ∷ 32 ∷ []

abbrev pub headers_end : List ℕ
headers_end =
    10 ∷ 67 ∷ 111 ∷ 110 ∷ 116 ∷ 101 ∷ 110 ∷ 116 ∷ 45 ∷ 84 ∷ 121 ∷ 112 ∷ 101 ∷ 58 ∷ 32 ∷ 116 ∷ 101
    ∷ 120 ∷ 116 ∷ 47 ∷ 104 ∷ 116 ∷ 109 ∷ 108 ∷ 59 ∷ 32 ∷ 99 ∷ 104 ∷ 97 ∷ 114 ∷ 115 ∷ 101 ∷ 116 ∷ 61
    ∷ 117 ∷ 116 ∷ 102 ∷ 45 ∷ 56 ∷ 10 ∷ 67 ∷ 111 ∷ 110 ∷ 110 ∷ 101 ∷ 99 ∷ 116 ∷ 105 ∷ 111 ∷ 110 ∷ 58
    ∷ 32 ∷ 99 ∷ 108 ∷ 111 ∷ 115 ∷ 101 ∷ 10 ∷ 10 ∷ []

-- `HTTP_RESPONSE_REDIRECT`.
abbrev pub redirect_start : List ℕ
redirect_start =
    72 ∷ 84 ∷ 84 ∷ 80 ∷ 47 ∷ 49 ∷ 46 ∷ 49 ∷ 32 ∷ 51 ∷ 48 ∷ 50 ∷ 32 ∷ 82 ∷ 101 ∷ 100 ∷ 105 ∷ 114
    ∷ 101 ∷ 99 ∷ 116 ∷ 10 ∷ 76 ∷ 111 ∷ 99 ∷ 97 ∷ 116 ∷ 105 ∷ 111 ∷ 110 ∷ 58 ∷ 32 ∷ 104 ∷ 116 ∷ 116
    ∷ 112 ∷ 58 ∷ 47 ∷ 47 ∷ []

abbrev pub redirect_end : List ℕ
redirect_end = 47 ∷ 108 ∷ 101 ∷ 100 ∷ 116 ∷ 101 ∷ 115 ∷ 116 ∷ 10 ∷ 10 ∷ []

-- ===== src/Server/Texts.antt =====
-- The texts that src/aftp/server.rs sends and puts into its errors, as their bytes.
use agentic_file_transfer.Base.{ℕ, List, [], ◌∷◌}

-- Too many failed auth attempts. Try again later.
abbrev pub too_many_attempts : List ℕ
too_many_attempts =
    84 ∷ 111 ∷ 111 ∷ 32 ∷ 109 ∷ 97 ∷ 110 ∷ 121 ∷ 32 ∷ 102 ∷ 97 ∷ 105 ∷ 108 ∷ 101 ∷ 100 ∷ 32 ∷ 97
    ∷ 117 ∷ 116 ∷ 104 ∷ 32 ∷ 97 ∷ 116 ∷ 116 ∷ 101 ∷ 109 ∷ 112 ∷ 116 ∷ 115 ∷ 46 ∷ 32 ∷ 84 ∷ 114 ∷ 121
    ∷ 32 ∷ 97 ∷ 103 ∷ 97 ∷ 105 ∷ 110 ∷ 32 ∷ 108 ∷ 97 ∷ 116 ∷ 101 ∷ 114 ∷ 46 ∷ []

-- Expected AUTH_RESPONSE
abbrev pub expected_auth_response : List ℕ
expected_auth_response =
    69 ∷ 120 ∷ 112 ∷ 101 ∷ 99 ∷ 116 ∷ 101 ∷ 100 ∷ 32 ∷ 65 ∷ 85 ∷ 84 ∷ 72 ∷ 95 ∷ 82 ∷ 69 ∷ 83 ∷ 80
    ∷ 79 ∷ 78 ∷ 83 ∷ 69 ∷ []

-- HMAC verification failed
abbrev pub hmac_failed : List ℕ
hmac_failed =
    72 ∷ 77 ∷ 65 ∷ 67 ∷ 32 ∷ 118 ∷ 101 ∷ 114 ∷ 105 ∷ 102 ∷ 105 ∷ 99 ∷ 97 ∷ 116 ∷ 105 ∷ 111 ∷ 110
    ∷ 32 ∷ 102 ∷ 97 ∷ 105 ∷ 108 ∷ 101 ∷ 100 ∷ []

-- Invalid auth token
abbrev pub invalid_token : List ℕ
invalid_token =
    73 ∷ 110 ∷ 118 ∷ 97 ∷ 108 ∷ 105 ∷ 100 ∷ 32 ∷ 97 ∷ 117 ∷ 116 ∷ 104 ∷ 32 ∷ 116 ∷ 111 ∷ 107 ∷ 101
    ∷ 110 ∷ []

-- Expected HELLO or RESUME
abbrev pub expected_hello : List ℕ
expected_hello =
    69 ∷ 120 ∷ 112 ∷ 101 ∷ 99 ∷ 116 ∷ 101 ∷ 100 ∷ 32 ∷ 72 ∷ 69 ∷ 76 ∷ 76 ∷ 79 ∷ 32 ∷ 111 ∷ 114 ∷ 32
    ∷ 82 ∷ 69 ∷ 83 ∷ 85 ∷ 77 ∷ 69 ∷ []

-- Unknown frame type 0x
abbrev pub unknown_frame_type : List ℕ
unknown_frame_type =
    85 ∷ 110 ∷ 107 ∷ 110 ∷ 111 ∷ 119 ∷ 110 ∷ 32 ∷ 102 ∷ 114 ∷ 97 ∷ 109 ∷ 101 ∷ 32 ∷ 116 ∷ 121 ∷ 112
    ∷ 101 ∷ 32 ∷ 48 ∷ 120 ∷ []

-- Rate limited
abbrev pub rate_limited : List ℕ
rate_limited = 82 ∷ 97 ∷ 116 ∷ 101 ∷ 32 ∷ 108 ∷ 105 ∷ 109 ∷ 105 ∷ 116 ∷ 101 ∷ 100 ∷ []

-- Auth failed
abbrev pub auth_failed_text : List ℕ
auth_failed_text = 65 ∷ 117 ∷ 116 ∷ 104 ∷ 32 ∷ 102 ∷ 97 ∷ 105 ∷ 108 ∷ 101 ∷ 100 ∷ []

-- Invalid auth token on resume
abbrev pub invalid_token_on_resume : List ℕ
invalid_token_on_resume =
    73 ∷ 110 ∷ 118 ∷ 97 ∷ 108 ∷ 105 ∷ 100 ∷ 32 ∷ 97 ∷ 117 ∷ 116 ∷ 104 ∷ 32 ∷ 116 ∷ 111 ∷ 107 ∷ 101
    ∷ 110 ∷ 32 ∷ 111 ∷ 110 ∷ 32 ∷ 114 ∷ 101 ∷ 115 ∷ 117 ∷ 109 ∷ 101 ∷ []

-- Path traversal detected
abbrev pub traversal_detected : List ℕ
traversal_detected =
    80 ∷ 97 ∷ 116 ∷ 104 ∷ 32 ∷ 116 ∷ 114 ∷ 97 ∷ 118 ∷ 101 ∷ 114 ∷ 115 ∷ 97 ∷ 108 ∷ 32 ∷ 100 ∷ 101
    ∷ 116 ∷ 101 ∷ 99 ∷ 116 ∷ 101 ∷ 100 ∷ []

-- Path outside server root
abbrev pub outside_root : List ℕ
outside_root =
    80 ∷ 97 ∷ 116 ∷ 104 ∷ 32 ∷ 111 ∷ 117 ∷ 116 ∷ 115 ∷ 105 ∷ 100 ∷ 101 ∷ 32 ∷ 115 ∷ 101 ∷ 114 ∷ 118
    ∷ 101 ∷ 114 ∷ 32 ∷ 114 ∷ 111 ∷ 111 ∷ 116 ∷ []

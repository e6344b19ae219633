-- ===== src/Guard/Identity.antt =====
-- internal/guard/rate_limit.go, `userDocumentID`. A uid is the list of its code points; SHA-256 is
-- the parameter `digest`, whose 256 bits are read as a number.
use conclution_ai_teacher.Prelude.Text.{Text, is_blank}
use conclution_ai_teacher.Prelude.{ℕ, if◌then◌else◌, Option, none, some}

-- `none` is the error "uid is required".
unfoldable pub user_document_id : (Text → ℕ) → Text → Option ℕ
user_document_id digest uid = if is_blank uid then none else some (digest uid)

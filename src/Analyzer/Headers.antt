-- ===== src/Analyzer/Headers.antt =====
-- The header tests of nexus/src/analyzer.rs.
use krc721_protocol.Prelude.{ℕ, Bool, ◌||◌, List, is_some}
use krc721_protocol.Inscription.Codes.{
  kasplex_header_lc, kasplex_header_uc, kspr_u8_strict, kspr_u8_strict_uc, krc20_header_uc,
  krc20_header_lc, krc721_header_uc, krc721_header_lc,
}
use krc721_protocol.Analyzer.Windows.{window_find}

unfoldable pub detect_krc20_header : List ℕ → Bool
detect_krc20_header haystack =
    is_some (window_find haystack krc20_header_uc) || is_some (window_find haystack krc20_header_lc)

unfoldable pub detect_krc721_header : List ℕ → Bool
detect_krc721_header haystack =
    is_some (window_find haystack krc721_header_uc)
    || is_some (window_find haystack krc721_header_lc)

unfoldable pub detect_kasplex_header : List ℕ → Bool
detect_kasplex_header haystack =
    is_some (window_find haystack kasplex_header_lc)
    || is_some (window_find haystack kasplex_header_uc)

unfoldable pub detect_kspr_header : List ℕ → Bool
detect_kspr_header haystack =
    is_some (window_find haystack kspr_u8_strict)
    || is_some (window_find haystack kspr_u8_strict_uc)

-- ===== src/Regex/Samples.antt =====
-- Patterns and texts that the matcher is run on.
use grouvi_nox.Prelude.{codes, false, refl, true, ◌≡◌}
use grouvi_nox.Regex.{test, run, scan, rounds, at_first, at_last, at_edge, is_word}
use grouvi_nox.Regex.Syntax.{regex, regex_i, is_whole, is_space}

word_edges :
    test (regex "\\b(?:useradd|passwd)\\b|\\/etc\\/(?:sudoers|passwd)") (codes "sudo passwd root")
    ≡ true
unfolding test regex scan run rounds at_edge is_word
word_edges = refl

no_word_edge : test (regex "\\b(?:useradd|passwd)\\b") (codes "xpasswd passwd_") ≡ false
unfolding test regex scan run rounds at_edge is_word
no_word_edge = refl

counted : test (regex "^[0-9a-f]{7,64}$") (codes "0123abcf") ≡ true
unfolding test regex scan run rounds at_first at_last
counted = refl

counted_out : test (regex "^[0-9a-f]{7,12}$") (codes "0123abcf01234") ≡ false
unfolding test regex scan run rounds at_first at_last
counted_out = refl

looks_ahead : test (regex "(?!cert|chain)[^/]*\\.pem$") (codes "privkey.pem") ≡ true
unfolding test regex scan run rounds at_last
looks_ahead = refl

looks_ahead_out :
    test (regex "^(?!(?:cert|chain)\\d*\\.pem$)[^/]*\\.pem$") (codes "chain12.pem") ≡ false
unfolding test regex scan run rounds at_first at_last
looks_ahead_out = refl

any_case : test (regex_i "DROP\\s+(?:TABLE|DATABASE)") (codes "drop  Table x") ≡ true
unfolding test regex_i scan run rounds is_space is_word
any_case = refl

ranged : test (regex "^[\\w.-]+$") (codes "a-b.c_9") ≡ true
unfolding test regex scan run rounds at_first at_last is_word
ranged = refl

whole_pattern : is_whole "(?:^|\\/)\\.env(?:\\.[\\w.-]+)?$" ≡ true
unfolding is_whole
whole_pattern = refl

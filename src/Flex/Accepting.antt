-- ===== src/Flex/Accepting.antt =====
-- The tables of src/library_src/flex.cpp: which case a state accepts, and the classes of characters.
use zpr_res_monitor.Prelude.{[], ◌∷◌}
use zpr_res_monitor.Flex.Numbers.{Numbers, numbers, row}

-- `yy_accept`.
unfoldable pub yy_accept : Numbers
yy_accept = numbers 0 (
    (row 0 0 65 65 32 32 0 0 0 0
      ∷ row 0 0 32 32 0 0 0 0 0 0
      ∷ row 65 65 71 70 66 67 70 70 50 65
      ∷ row 43 38 70 70 70 70 70 42 41 40
      ∷ row 39 59 32 32 9 12 8 70 70 70
      ∷ row 70 70 70 70 24 23 22 21 13 66
      ∷ row 9 12 8 70 70 13 66 70 14 70
      ∷ row 70 66 25 20 24 23 22 21 26 32
      ∷ row 27 31 30 29 28 66 43 38 42 41
      ∷ row 40 39 70 50 45 49 48 47 46 66
      ∷ [])
    ∷ (row 58 53 57 56 55 54 59 65 60 64
        ∷ row 63 62 61 66 67 0 0 50 43 42
        ∷ row 41 40 39 59 65 43 38 0 0 0
        ∷ row 0 0 44 59 32 9 12 0 0 0
        ∷ row 24 23 22 21 13 32 15 12 8 0
        ∷ row 0 11 0 10 0 0 0 13 26 66
        ∷ row 9 12 0 0 13 12 8 11 10 13
        ∷ row 66 0 0 0 14 0 0 66 25 24
        ∷ row 23 22 21 26 25 20 26 32 31 30
        ∷ row 29 28 27 66 43 42 41 40 39 0
        ∷ [])
    ∷ (row 43 38 44 50 49 48 47 46 45 66
        ∷ row 58 57 56 55 54 59 58 53 59 65
        ∷ row 64 63 62 61 60 0 0 0 0 0
        ∷ row 0 0 0 0 17 0 0 0 16 0
        ∷ row 0 0 0 0 0 0 0 0 0 0
        ∷ row 0 0 68 0 33 0 37 0 0 1
        ∷ row 0 11 11 0 10 10 0 0 0 11
        ∷ row 11 10 10 0 0 0 0 0 35 36
        ∷ row 0 0 3 19 19 0 7 0 0 36
        ∷ row 0 0 18 0 0 6 5 0 34 0
        ∷ [])
    ∷ (row 18 0 2 6 4 69 0 0 4 0 ∷ (0 ∷ 52 ∷ 51 ∷ 51 ∷ 0 ∷ []) ∷ [])
    ∷ [])

-- `yy_ec`.
unfoldable pub yy_ec : Numbers
yy_ec = numbers 0 (
    (row 1 1 1 1 1 1 1 1 2 3
      ∷ row 1 1 1 1 1 1 1 1 1 1
      ∷ row 1 1 1 1 1 1 1 1 1 1
      ∷ row 1 4 1 1 1 1 5 1 1 1
      ∷ row 1 1 1 6 1 1 7 8 8 8
      ∷ row 8 8 8 8 8 8 8 1 1 1
      ∷ row 1 1 1 1 9 10 11 12 13 14
      ∷ row 15 1 16 1 17 18 19 20 21 22
      ∷ row 1 23 24 25 26 27 1 1 28 1
      ∷ row 1 1 1 1 1 1 29 30 31 32
      ∷ [])
    ∷ (row 33 34 35 36 37 1 38 39 40 41
        ∷ row 42 43 1 44 45 46 47 48 1 1
        ∷ row 49 1 50 1 51 1 1 1 1 1
        ∷ row 1 1 1 1 1 1 1 1 1 1
        ∷ row 1 1 1 1 1 1 1 1 1 1
        ∷ row 1 1 1 1 1 1 1 1 1 1
        ∷ row 1 1 1 1 1 1 1 1 1 1
        ∷ row 1 1 1 1 1 1 1 1 1 1
        ∷ row 1 1 1 1 1 1 1 1 1 1
        ∷ row 1 1 1 1 1 1 1 1 1 1
        ∷ [])
    ∷ (row 1 1 1 1 1 1 1 1 1 1
        ∷ row 1 1 1 1 1 1 1 1 1 1
        ∷ row 1 1 1 1 1 1 1 1 1 1
        ∷ row 1 1 1 1 1 1 1 1 1 1
        ∷ row 1 1 1 1 1 1 1 1 1 1
        ∷ (1 ∷ 1 ∷ 1 ∷ 1 ∷ 1 ∷ [])
        ∷ [])
    ∷ [])

-- `yy_meta`.
unfoldable pub yy_meta : Numbers
yy_meta = numbers 0 (
    (row 1 1 1 1 1 1 1 1 1 1
      ∷ row 1 1 1 1 1 1 1 1 1 1
      ∷ row 1 1 1 1 1 1 1 1 1 1
      ∷ row 1 1 1 1 1 1 1 1 1 1
      ∷ row 1 1 1 1 1 1 1 1 1 1
      ∷ (1 ∷ [])
      ∷ [])
    ∷ [])

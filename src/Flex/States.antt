-- ===== src/Flex/States.antt =====
-- The tables of src/library_src/flex.cpp: where the row of a state begins, and the state behind it.
use zpr_res_monitor.Prelude.{[], ◌∷◌}
use zpr_res_monitor.Flex.Numbers.{Numbers, numbers, row}

-- `yy_base`.
unfoldable pub yy_base : Numbers
yy_base = numbers 0 (
    (row 0 3 48 0 98 0 148 0 198 248
      ∷ row 298 0 348 398 448 498 548 598 648 698
      ∷ row 748 798 392 1150 6 388 1 0 848 375
      ∷ row 7 336 2 0 5 0 1 1 1150 2
      ∷ row 1150 27 898 333 51 59 318 5 3 2
      ∷ row 48 65 37 0 49 1150 95 1150 118 948
      ∷ row 1150 66 314 66 81 70 155 79 288 97
      ∷ row 102 998 137 276 1150 1150 1150 1150 144 175
      ∷ row 266 1150 1150 1150 1150 1048 160 261 1150 1150
      ∷ row 1150 1150 167 176 239 1150 1150 1150 1150 1098
      ∷ [])
    ∷ (row 180 228 1150 1150 1150 1150 189 194 224 1150
        ∷ row 1150 1150 1150 220 216 100 81 0 221 1150
        ∷ row 1150 1150 1150 225 211 233 201 129 141 145
        ∷ row 178 186 238 198 0 241 242 151 176 238
        ∷ row 1150 1150 241 1150 255 172 258 262 164 229
        ∷ row 237 268 241 285 254 264 266 277 155 0
        ∷ row 1150 289 275 285 306 310 134 294 302 316
        ∷ row 327 317 317 325 128 364 368 0 321 1150
        ∷ row 1150 1150 1150 337 355 123 361 377 1150 1150
        ∷ row 1150 1150 118 0 356 1150 1150 1150 1150 372
        ∷ [])
    ∷ (row 381 106 385 392 1150 1150 1150 1150 81 0
        ∷ row 393 1150 1150 1150 1150 412 401 50 416 408
        ∷ row 1150 1150 1150 1150 28 419 338 423 331 427
        ∷ row 340 356 431 409 437 412 418 420 456 422
        ∷ row 427 434 438 446 438 440 441 444 445 446
        ∷ row 447 449 473 463 493 499 503 464 478 507
        ∷ row 508 511 512 516 517 520 500 523 503 1150
        ∷ row 1150 1150 1150 527 531 535 538 515 553 556
        ∷ row 513 519 557 561 567 518 566 570 541 571
        ∷ row 574 552 585 561 588 592 603 593 606 575
        ∷ [])
    ∷ (row 611 591 616 617 620 621 605 625 629 616 ∷ (635 ∷ 640 ∷ 644 ∷ 656 ∷ 1150 ∷ 0 ∷ []) ∷ [])
    ∷ [])

-- `yy_def`.
unfoldable pub yy_def : Numbers
yy_def = numbers 0 (
    (row 316 316 316 3 316 5 316 7 7 7
      ∷ row 7 11 11 11 11 11 11 11 11 11
      ∷ row 11 11 315 315 315 315 315 315 315 315
      ∷ row 315 315 315 315 315 315 315 315 315 315
      ∷ row 315 315 315 315 315 315 315 315 315 315
      ∷ row 315 315 315 315 315 315 315 315 315 315
      ∷ row 315 315 315 315 315 315 315 315 315 315
      ∷ row 315 315 315 315 315 315 315 315 315 315
      ∷ row 315 315 315 315 315 315 315 315 315 315
      ∷ row 315 315 315 315 315 315 315 315 315 315
      ∷ [])
    ∷ (row 315 315 315 315 315 315 315 315 315 315
        ∷ row 315 315 315 315 315 315 315 29 315 315
        ∷ row 315 315 315 315 315 315 315 315 315 315
        ∷ row 315 315 315 315 43 315 315 315 315 315
        ∷ row 315 315 315 315 315 315 315 315 315 315
        ∷ row 315 315 315 315 315 315 315 315 315 60
        ∷ row 315 315 315 315 315 315 315 315 315 315
        ∷ row 315 315 315 315 315 315 315 72 315 315
        ∷ row 315 315 315 315 315 315 315 315 315 315
        ∷ row 315 315 315 86 315 315 315 315 315 315
        ∷ [])
    ∷ (row 315 315 315 315 315 315 315 315 315 100
        ∷ row 315 315 315 315 315 315 315 315 315 315
        ∷ row 315 315 315 315 315 315 315 315 315 315
        ∷ row 315 315 315 315 315 315 315 315 315 315
        ∷ row 315 315 315 315 315 315 315 315 315 315
        ∷ row 315 315 315 315 315 315 315 315 315 315
        ∷ row 315 315 315 315 315 315 315 315 315 315
        ∷ row 315 315 315 315 315 315 315 315 315 315
        ∷ row 315 315 315 315 315 315 315 315 315 315
        ∷ row 315 315 315 315 315 315 315 315 315 315
        ∷ [])
    ∷ (row 315 315 315 315 315 315 315 315 315 315 ∷ (315 ∷ 315 ∷ 315 ∷ 315 ∷ 0 ∷ 315 ∷ []) ∷ [])
    ∷ [])

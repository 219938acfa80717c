-- ===== src/Flex/Check.antt =====
-- The table of src/library_src/flex.cpp with the state that each entry of `yy_nxt` belongs to.
use zpr_res_monitor.Prelude.{[], ◌∷◌}
use zpr_res_monitor.Flex.Numbers.{Numbers, numbers, row}

-- `yy_chk`.
unfoldable pub yy_chk : Numbers
yy_chk = numbers 0 (
    (row 316 1 1 1 2 2 2 25 31 25
      ∷ row 31 50 36 37 40 34 38 1 49 54
      ∷ row 2 27 28 33 1 35 48 2 42 42
      ∷ row 42 50 36 37 40 225 34 38 1 49
      ∷ row 54 2 27 28 33 1 35 48 2 3
      ∷ row 3 3 45 3 45 3 51 218 3 3
      ∷ row 46 3 46 53 55 3 3 62 51 62
      ∷ row 3 66 3 66 52 64 51 52 3 3
      ∷ row 68 3 68 3 53 55 3 3 209 51
      ∷ row 65 3 3 3 52 64 117 52 3 5
      ∷ [])
    ∷ (row 5 5 5 5 57 5 70 57 5 5
        ∷ row 65 71 5 202 116 5 5 117 5 59
        ∷ row 59 59 5 5 57 193 70 57 5 5
        ∷ row 186 71 5 5 116 175 5 5 73 5
        ∷ row 73 167 5 5 5 79 79 79 5 7
        ∷ row 7 7 7 7 128 7 67 159 67 67
        ∷ row 138 87 7 87 129 7 7 130 93 67
        ∷ row 93 149 7 67 146 128 80 94 80 94
        ∷ row 138 101 7 101 139 129 7 7 130 67
        ∷ row 107 107 107 7 67 108 131 108 7 9
        ∷ [])
    ∷ (row 134 9 9 9 139 9 80 94 127 132
        ∷ row 80 94 9 125 80 94 9 131 115 80
        ∷ row 94 114 119 114 119 108 124 124 124 108
        ∷ row 132 109 9 108 126 102 126 9 108 133
        ∷ row 133 133 136 137 136 137 95 140 9 10
        ∷ row 143 10 10 10 150 10 145 145 145 147
        ∷ row 151 147 10 148 153 148 10 140 88 152
        ∷ row 143 152 155 81 152 150 156 157 158 158
        ∷ row 158 151 10 74 163 153 154 10 154 152
        ∷ row 162 154 162 155 164 69 156 157 10 11
        ∷ [])
    ∷ (row 168 11 11 11 163 11 154 165 169 165
        ∷ row 152 166 11 166 164 168 11 170 172 170
        ∷ row 172 63 179 169 179 47 173 154 171 11
        ∷ row 171 171 11 11 174 44 168 11 184 184
        ∷ row 184 171 11 32 169 171 173 229 11 13
        ∷ row 13 13 227 13 174 13 185 195 185 195
        ∷ row 231 171 187 187 187 176 171 176 229 177
        ∷ row 176 177 227 200 177 200 232 30 188 13
        ∷ row 188 231 201 13 201 176 203 13 203 177
        ∷ row 26 23 13 204 211 204 211 232 13 14
        ∷ [])
    ∷ (row 14 14 217 14 217 14 176 0 188 220
        ∷ row 177 220 188 216 216 216 188 219 219 219
        ∷ row 226 188 226 204 228 234 228 204 230 14
        ∷ row 230 204 233 14 233 236 204 14 235 220
        ∷ row 235 237 14 220 238 240 234 220 14 15
        ∷ row 241 15 220 15 242 15 236 239 244 239
        ∷ row 243 245 237 246 247 238 240 248 249 250
        ∷ row 251 241 252 0 253 242 253 254 244 15
        ∷ row 0 243 245 15 246 247 258 15 248 249
        ∷ row 250 251 15 252 255 259 255 254 15 16
        ∷ [])
    ∷ (row 256 16 256 16 257 16 257 258 260 261
        ∷ row 260 261 262 263 262 263 259 264 265 264
        ∷ row 265 266 267 266 268 269 268 278 274 16
        ∷ row 274 0 275 16 275 0 276 16 276 277
        ∷ row 281 277 16 267 282 286 269 278 16 17
        ∷ row 0 17 257 17 279 17 279 280 283 280
        ∷ row 283 281 284 289 284 282 286 287 285 287
        ∷ row 285 288 290 288 290 291 292 291 0 17
        ∷ row 285 294 0 17 289 0 293 17 293 295
        ∷ row 300 295 17 296 298 296 298 292 17 18
        ∷ [])
    ∷ (row 285 18 294 18 297 18 297 299 0 299
        ∷ row 284 300 301 302 301 287 285 303 304 303
        ∷ row 304 305 306 305 306 307 308 0 308 18
        ∷ row 309 0 309 18 302 310 311 18 311 0
        ∷ row 0 312 18 312 0 313 307 313 18 19
        ∷ row 0 19 297 19 0 19 310 314 0 314
        ∷ row 0 0 0 0 0 0 0 0 0 0
        ∷ row 0 0 0 0 0 0 0 0 0 19
        ∷ row 0 0 0 19 0 0 0 19 0 312
        ∷ row 0 0 19 0 0 0 0 0 19 20
        ∷ [])
    ∷ (row 0 20 0 20 0 20 0 0 0 0
        ∷ row 0 0 0 0 0 0 0 0 0 0
        ∷ row 0 0 0 0 0 0 0 0 0 20
        ∷ row 0 0 0 20 0 0 0 20 0 0
        ∷ row 0 0 20 0 0 0 0 0 20 21
        ∷ row 21 21 0 21 0 21 0 0 0 0
        ∷ row 0 0 0 0 0 0 0 0 0 0
        ∷ row 0 0 0 0 0 0 0 0 0 21
        ∷ row 0 0 0 21 0 0 0 21 0 0
        ∷ row 0 0 21 0 0 0 0 0 21 22
        ∷ [])
    ∷ (row 22 22 0 22 0 22 0 0 0 0
        ∷ row 0 0 0 0 0 0 0 0 0 0
        ∷ row 0 0 0 0 0 0 0 0 0 22
        ∷ row 0 0 0 22 0 0 0 22 0 0
        ∷ row 0 0 22 0 0 0 0 0 22 29
        ∷ row 0 29 0 29 0 0 0 0 0 0
        ∷ row 0 0 0 0 0 0 0 0 0 0
        ∷ row 0 0 0 0 0 0 0 0 0 29
        ∷ row 0 0 0 29 0 0 0 29 0 0
        ∷ row 0 0 29 0 0 0 0 0 29 43
        ∷ [])
    ∷ (row 0 43 43 43 0 0 0 0 0 0
        ∷ row 0 0 43 0 0 43 43 0 0 0
        ∷ row 0 0 0 0 0 0 0 0 0 43
        ∷ row 0 0 43 43 0 0 43 43 0 0
        ∷ row 0 0 43 0 0 0 0 0 43 60
        ∷ row 0 60 60 60 0 0 0 0 0 0
        ∷ row 0 0 60 0 0 0 60 0 0 0
        ∷ row 0 0 0 0 0 0 0 0 0 0
        ∷ row 0 0 60 0 0 0 0 60 0 0
        ∷ row 0 0 0 0 0 0 0 0 60 72
        ∷ [])
    ∷ (row 0 72 0 72 0 0 0 0 0 0
        ∷ row 0 0 0 0 0 0 0 0 0 0
        ∷ row 0 0 0 0 0 0 0 0 0 72
        ∷ row 0 0 0 72 0 0 0 72 0 0
        ∷ row 0 0 72 0 0 0 0 0 72 86
        ∷ row 0 86 0 86 0 0 0 0 0 0
        ∷ row 0 0 0 0 0 0 0 0 0 0
        ∷ row 0 0 0 0 0 0 0 0 0 86
        ∷ row 0 0 0 86 0 0 0 86 0 0
        ∷ row 0 0 86 0 0 0 0 0 86 100
        ∷ [])
    ∷ (row 0 100 0 100 0 0 0 0 0 0
        ∷ row 0 0 0 0 0 0 0 0 0 0
        ∷ row 0 0 0 0 0 0 0 0 0 100
        ∷ row 0 0 0 100 0 0 0 100 0 0
        ∷ row 0 0 100 0 0 0 0 0 100 315
        ∷ row 315 315 315 315 315 315 315 315 315 315
        ∷ row 315 315 315 315 315 315 315 315 315 315
        ∷ row 315 315 315 315 315 315 315 315 315 315
        ∷ row 315 315 315 315 315 315 315 315 315 315
        ∷ row 315 315 315 315 315 315 315 315 315 315
        ∷ [])
    ∷ ((315 ∷ []) ∷ [])
    ∷ [])

-- ===== src/Flex/Next.antt =====
-- The table of src/library_src/flex.cpp with the next states.
use zpr_res_monitor.Prelude.{[], ◌∷◌}
use zpr_res_monitor.Flex.Numbers.{Numbers, numbers, row}

-- `yy_nxt`.
unfoldable pub yy_nxt : Numbers
yy_nxt = numbers 0 (
    (row 24 25 26 25 25 26 25 114 126 114
      ∷ row 126 152 131 132 131 129 129 27 151 157
      ∷ row 27 116 117 128 28 130 150 28 133 134
      ∷ row 133 152 131 132 131 225 129 129 27 151
      ∷ row 157 27 116 117 128 28 130 150 28 29
      ∷ row 30 29 147 31 147 32 153 218 33 34
      ∷ row 148 35 148 156 151 27 36 166 116 166
      ∷ row 37 170 28 170 154 168 153 155 33 38
      ∷ row 147 35 147 39 156 151 27 40 209 116
      ∷ row 169 37 41 28 154 168 227 155 42 43
      ∷ [])
    ∷ (row 44 43 45 46 154 47 176 155 48 49
        ∷ row 169 177 50 202 226 51 52 227 53 158
        ∷ row 159 158 28 54 154 193 176 155 48 55
        ∷ row 186 177 50 56 226 175 51 57 185 53
        ∷ row 185 167 58 28 54 187 159 187 59 60
        ∷ row 26 60 61 62 228 63 171 159 171 172
        ∷ row 152 201 64 201 229 27 65 230 203 173
        ∷ row 203 149 28 174 146 228 188 204 188 204
        ∷ row 152 217 64 217 153 229 27 65 230 173
        ∷ row 219 134 219 28 174 220 231 220 66 67
        ∷ [])
    ∷ (row 134 67 68 24 153 69 189 205 127 232
        ∷ row 190 206 70 125 191 207 71 231 115 192
        ∷ row 208 114 126 114 126 221 133 134 133 222
        ∷ row 232 225 70 223 126 218 126 71 224 133
        ∷ row 134 133 147 148 147 148 209 154 24 67
        ∷ row 154 67 68 24 233 69 158 159 158 147
        ∷ row 234 147 70 148 238 148 71 154 202 235
        ∷ row 154 235 242 193 236 233 243 244 158 159
        ∷ row 158 234 70 186 168 238 239 71 239 237
        ∷ row 166 240 166 242 169 175 243 244 24 72
        ∷ [])
    ∷ (row 245 72 24 73 168 74 241 170 247 170
        ∷ row 237 166 24 166 169 246 24 170 147 170
        ∷ row 147 167 185 248 185 149 176 241 171 75
        ∷ row 171 172 24 76 177 146 246 77 187 159
        ∷ row 187 173 78 127 248 174 176 256 79 80
        ∷ row 44 80 254 24 177 81 185 201 185 201
        ∷ row 258 173 187 159 187 235 174 235 256 239
        ∷ row 249 239 254 203 251 203 259 125 188 82
        ∷ row 188 258 201 83 201 250 203 84 203 252
        ∷ row 115 315 85 204 217 204 217 259 24 80
        ∷ [])
    ∷ (row 44 80 217 24 217 81 250 315 189 220
        ∷ row 252 220 190 219 134 219 191 219 134 219
        ∷ row 253 192 253 205 255 261 255 206 257 82
        ∷ row 257 207 260 83 260 262 208 84 235 221
        ∷ row 235 263 85 222 264 265 261 223 24 86
        ∷ row 266 86 224 87 267 88 262 239 269 239
        ∷ row 268 270 263 271 272 264 265 273 274 275
        ∷ row 276 266 277 315 253 267 253 278 269 89
        ∷ row 315 268 270 90 271 272 281 91 273 274
        ∷ row 275 276 92 277 255 282 255 278 93 86
        ∷ [])
    ∷ (row 279 86 279 87 257 88 257 281 260 283
        ∷ row 260 283 235 235 235 235 282 284 239 285
        ∷ row 239 239 286 239 287 288 287 289 235 89
        ∷ row 235 315 235 90 235 315 239 91 239 239
        ∷ row 291 239 92 286 292 295 288 289 93 94
        ∷ row 315 94 280 24 279 95 279 290 283 290
        ∷ row 283 291 284 298 284 292 295 287 284 287
        ∷ row 284 297 290 297 290 299 300 299 315 96
        ∷ row 294 302 315 97 298 315 301 98 301 303
        ∷ row 307 303 99 304 306 304 306 300 24 94
        ∷ [])
    ∷ (row 294 94 302 24 297 95 297 299 315 299
        ∷ row 293 307 301 308 301 296 293 303 304 303
        ∷ row 304 309 306 309 306 310 284 315 284 96
        ∷ row 309 315 309 97 308 311 312 98 312 315
        ∷ row 315 312 99 312 315 314 310 314 24 100
        ∷ row 315 100 305 101 315 102 311 314 315 314
        ∷ row 315 315 315 315 315 315 315 315 315 315
        ∷ row 315 315 315 315 315 315 315 315 315 103
        ∷ row 315 315 315 104 315 315 315 105 315 313
        ∷ row 315 315 106 315 315 315 315 315 107 100
        ∷ [])
    ∷ (row 315 100 315 101 315 102 315 315 315 315
        ∷ row 315 315 315 315 315 315 315 315 315 315
        ∷ row 315 315 315 315 315 315 315 315 315 103
        ∷ row 315 315 315 104 315 315 315 105 315 315
        ∷ row 315 315 106 315 315 315 315 315 107 108
        ∷ row 30 108 315 24 315 109 315 315 315 315
        ∷ row 315 315 315 315 315 315 315 315 315 315
        ∷ row 315 315 315 315 315 315 315 315 315 110
        ∷ row 315 315 315 111 315 315 315 112 315 315
        ∷ row 315 315 113 315 315 315 315 315 24 108
        ∷ [])
    ∷ (row 30 108 315 24 315 109 315 315 315 315
        ∷ row 315 315 315 315 315 315 315 315 315 315
        ∷ row 315 315 315 315 315 315 315 315 315 110
        ∷ row 315 315 315 111 315 315 315 112 315 315
        ∷ row 315 315 113 315 315 315 315 315 24 118
        ∷ row 315 118 315 119 315 315 315 315 315 315
        ∷ row 315 315 315 315 315 315 315 315 315 315
        ∷ row 315 315 315 315 315 315 315 315 315 120
        ∷ row 315 315 315 121 315 315 315 122 315 315
        ∷ row 315 315 123 315 315 315 315 315 124 135
        ∷ [])
    ∷ (row 315 135 136 137 315 315 315 315 315 315
        ∷ row 315 315 138 315 315 139 140 315 315 315
        ∷ row 315 315 315 315 315 315 315 315 315 141
        ∷ row 315 315 138 142 315 315 139 143 315 315
        ∷ row 315 315 144 315 315 315 315 315 145 160
        ∷ row 315 160 161 162 315 315 315 315 315 315
        ∷ row 315 315 163 315 315 315 164 315 315 315
        ∷ row 315 315 315 315 315 315 315 315 315 315
        ∷ row 315 315 163 315 315 315 315 164 315 315
        ∷ row 315 315 315 315 315 315 315 315 165 178
        ∷ [])
    ∷ (row 315 178 315 179 315 315 315 315 315 315
        ∷ row 315 315 315 315 315 315 315 315 315 315
        ∷ row 315 315 315 315 315 315 315 315 315 180
        ∷ row 315 315 315 181 315 315 315 182 315 315
        ∷ row 315 315 183 315 315 315 315 315 184 194
        ∷ row 315 194 315 195 315 315 315 315 315 315
        ∷ row 315 315 315 315 315 315 315 315 315 315
        ∷ row 315 315 315 315 315 315 315 315 315 196
        ∷ row 315 315 315 197 315 315 315 198 315 315
        ∷ row 315 315 199 315 315 315 315 315 200 210
        ∷ [])
    ∷ (row 315 210 315 211 315 315 315 315 315 315
        ∷ row 315 315 315 315 315 315 315 315 315 315
        ∷ row 315 315 315 315 315 315 315 315 315 212
        ∷ row 315 315 315 213 315 315 315 214 315 315
        ∷ row 315 315 215 315 315 315 315 315 216 23
        ∷ row 315 315 315 315 315 315 315 315 315 315
        ∷ row 315 315 315 315 315 315 315 315 315 315
        ∷ row 315 315 315 315 315 315 315 315 315 315
        ∷ row 315 315 315 315 315 315 315 315 315 315
        ∷ row 315 315 315 315 315 315 315 315 315 315
        ∷ [])
    ∷ ((315 ∷ []) ∷ [])
    ∷ [])

-- ===== src/Storage/Crc64/Tables/Rows01.antt =====
-- The rows 0 and 1 of the table `Crc64MU32` of crypt.cpp, with 256 entries each.
use azure_sdk_for_cpp.Base.{ℕ, List, [], ◌∷◌}

-- The entries from 0 * 256.
unfoldable pub mu32_row0 : List ℕ
mu32_row0 =
    0x0000000000000000 ∷ 0xb8c533c1177eb231 ∷ 0x455341d1766af709 ∷ 0xfd96721061144538
    ∷ 0x8aa683a2ecd5ee12 ∷ 0x3263b063fbab5c23 ∷ 0xcff5c2739abf191b ∷ 0x7730f1b28dc1ab2a
    ∷ 0x21942116813c4f4f ∷ 0x995112d79642fd7e ∷ 0x64c760c7f756b846 ∷ 0xdc025306e0280a77
    ∷ 0xab32a2b46de9a15d ∷ 0x13f791757a97136c ∷ 0xee61e3651b835654 ∷ 0x56a4d0a40cfde465
    ∷ 0x4328422d02789e9e ∷ 0xfbed71ec15062caf ∷ 0x067b03fc74126997 ∷ 0xbebe303d636cdba6
    ∷ 0xc98ec18feead708c ∷ 0x714bf24ef9d3c2bd ∷ 0x8cdd805e98c78785 ∷ 0x3418b39f8fb935b4
    ∷ 0x62bc633b8344d1d1 ∷ 0xda7950fa943a63e0 ∷ 0x27ef22eaf52e26d8 ∷ 0x9f2a112be25094e9
    ∷ 0xe81ae0996f913fc3 ∷ 0x50dfd35878ef8df2 ∷ 0xad49a14819fbc8ca ∷ 0x158c92890e857afb
    ∷ 0x8650845a04f13d3c ∷ 0x3e95b79b138f8f0d ∷ 0xc303c58b729bca35 ∷ 0x7bc6f64a65e57804
    ∷ 0x0cf607f8e824d32e ∷ 0xb4333439ff5a611f ∷ 0x49a546299e4e2427 ∷ 0xf16075e889309616
    ∷ 0xa7c4a54c85cd7273 ∷ 0x1f01968d92b3c042 ∷ 0xe297e49df3a7857a ∷ 0x5a52d75ce4d9374b
    ∷ 0x2d6226ee69189c61 ∷ 0x95a7152f7e662e50 ∷ 0x6831673f1f726b68 ∷ 0xd0f454fe080cd959
    ∷ 0xc578c6770689a3a2 ∷ 0x7dbdf5b611f71193 ∷ 0x802b87a670e354ab ∷ 0x38eeb467679de69a
    ∷ 0x4fde45d5ea5c4db0 ∷ 0xf71b7614fd22ff81 ∷ 0x0a8d04049c36bab9 ∷ 0xb24837c58b480888
    ∷ 0xe4ece76187b5eced ∷ 0x5c29d4a090cb5edc ∷ 0xa1bfa6b0f1df1be4 ∷ 0x197a9571e6a1a9d5
    ∷ 0x6e4a64c36b6002ff ∷ 0xd68f57027c1eb0ce ∷ 0x2b1925121d0af5f6 ∷ 0x93dc16d30a7447c7
    ∷ 0x38782ee75175e913 ∷ 0x80bd1d26460b5b22 ∷ 0x7d2b6f36271f1e1a ∷ 0xc5ee5cf73061ac2b
    ∷ 0xb2dead45bda00701 ∷ 0x0a1b9e84aadeb530 ∷ 0xf78dec94cbcaf008 ∷ 0x4f48df55dcb44239
    ∷ 0x19ec0ff1d049a65c ∷ 0xa1293c30c737146d ∷ 0x5cbf4e20a6235155 ∷ 0xe47a7de1b15de364
    ∷ 0x934a8c533c9c484e ∷ 0x2b8fbf922be2fa7f ∷ 0xd619cd824af6bf47 ∷ 0x6edcfe435d880d76
    ∷ 0x7b506cca530d778d ∷ 0xc3955f0b4473c5bc ∷ 0x3e032d1b25678084 ∷ 0x86c61eda321932b5
    ∷ 0xf1f6ef68bfd8999f ∷ 0x4933dca9a8a62bae ∷ 0xb4a5aeb9c9b26e96 ∷ 0x0c609d78deccdca7
    ∷ 0x5ac44ddcd23138c2 ∷ 0xe2017e1dc54f8af3 ∷ 0x1f970c0da45bcfcb ∷ 0xa7523fccb3257dfa
    ∷ 0xd062ce7e3ee4d6d0 ∷ 0x68a7fdbf299a64e1 ∷ 0x95318faf488e21d9 ∷ 0x2df4bc6e5ff093e8
    ∷ 0xbe28aabd5584d42f ∷ 0x06ed997c42fa661e ∷ 0xfb7beb6c23ee2326 ∷ 0x43bed8ad34909117
    ∷ 0x348e291fb9513a3d ∷ 0x8c4b1adeae2f880c ∷ 0x71dd68cecf3bcd34 ∷ 0xc9185b0fd8457f05
    ∷ 0x9fbc8babd4b89b60 ∷ 0x2779b86ac3c62951 ∷ 0xdaefca7aa2d26c69 ∷ 0x622af9bbb5acde58
    ∷ 0x151a0809386d7572 ∷ 0xaddf3bc82f13c743 ∷ 0x504949d84e07827b ∷ 0xe88c7a195979304a
    ∷ 0xfd00e89057fc4ab1 ∷ 0x45c5db514082f880 ∷ 0xb853a9412196bdb8 ∷ 0x00969a8036e80f89
    ∷ 0x77a66b32bb29a4a3 ∷ 0xcf6358f3ac571692 ∷ 0x32f52ae3cd4353aa ∷ 0x8a301922da3de19b
    ∷ 0xdc94c986d6c005fe ∷ 0x6451fa47c1beb7cf ∷ 0x99c78857a0aaf2f7 ∷ 0x2102bb96b7d440c6
    ∷ 0x56324a243a15ebec ∷ 0xeef779e52d6b59dd ∷ 0x13610bf54c7f1ce5 ∷ 0xaba438345b01aed4
    ∷ 0x70f05dcea2ebd226 ∷ 0xc8356e0fb5956017 ∷ 0x35a31c1fd481252f ∷ 0x8d662fdec3ff971e
    ∷ 0xfa56de6c4e3e3c34 ∷ 0x4293edad59408e05 ∷ 0xbf059fbd3854cb3d ∷ 0x07c0ac7c2f2a790c
    ∷ 0x51647cd823d79d69 ∷ 0xe9a14f1934a92f58 ∷ 0x14373d0955bd6a60 ∷ 0xacf20ec842c3d851
    ∷ 0xdbc2ff7acf02737b ∷ 0x6307ccbbd87cc14a ∷ 0x9e91beabb9688472 ∷ 0x26548d6aae163643
    ∷ 0x33d81fe3a0934cb8 ∷ 0x8b1d2c22b7edfe89 ∷ 0x768b5e32d6f9bbb1 ∷ 0xce4e6df3c1870980
    ∷ 0xb97e9c414c46a2aa ∷ 0x01bbaf805b38109b ∷ 0xfc2ddd903a2c55a3 ∷ 0x44e8ee512d52e792
    ∷ 0x124c3ef521af03f7 ∷ 0xaa890d3436d1b1c6 ∷ 0x571f7f2457c5f4fe ∷ 0xefda4ce540bb46cf
    ∷ 0x98eabd57cd7aede5 ∷ 0x202f8e96da045fd4 ∷ 0xddb9fc86bb101aec ∷ 0x657ccf47ac6ea8dd
    ∷ 0xf6a0d994a61aef1a ∷ 0x4e65ea55b1645d2b ∷ 0xb3f39845d0701813 ∷ 0x0b36ab84c70eaa22
    ∷ 0x7c065a364acf0108 ∷ 0xc4c369f75db1b339 ∷ 0x39551be73ca5f601 ∷ 0x819028262bdb4430
    ∷ 0xd734f8822726a055 ∷ 0x6ff1cb4330581264 ∷ 0x9267b953514c575c ∷ 0x2aa28a924632e56d
    ∷ 0x5d927b20cbf34e47 ∷ 0xe55748e1dc8dfc76 ∷ 0x18c13af1bd99b94e ∷ 0xa0040930aae70b7f
    ∷ 0xb5889bb9a4627184 ∷ 0x0d4da878b31cc3b5 ∷ 0xf0dbda68d208868d ∷ 0x481ee9a9c57634bc
    ∷ 0x3f2e181b48b79f96 ∷ 0x87eb2bda5fc92da7 ∷ 0x7a7d59ca3edd689f ∷ 0xc2b86a0b29a3daae
    ∷ 0x941cbaaf255e3ecb ∷ 0x2cd9896e32208cfa ∷ 0xd14ffb7e5334c9c2 ∷ 0x698ac8bf444a7bf3
    ∷ 0x1eba390dc98bd0d9 ∷ 0xa67f0accdef562e8 ∷ 0x5be978dcbfe127d0 ∷ 0xe32c4b1da89f95e1
    ∷ 0x48887329f39e3b35 ∷ 0xf04d40e8e4e08904 ∷ 0x0ddb32f885f4cc3c ∷ 0xb51e0139928a7e0d
    ∷ 0xc22ef08b1f4bd527 ∷ 0x7aebc34a08356716 ∷ 0x877db15a6921222e ∷ 0x3fb8829b7e5f901f
    ∷ 0x691c523f72a2747a ∷ 0xd1d961fe65dcc64b ∷ 0x2c4f13ee04c88373 ∷ 0x948a202f13b63142
    ∷ 0xe3bad19d9e779a68 ∷ 0x5b7fe25c89092859 ∷ 0xa6e9904ce81d6d61 ∷ 0x1e2ca38dff63df50
    ∷ 0x0ba03104f1e6a5ab ∷ 0xb36502c5e698179a ∷ 0x4ef370d5878c52a2 ∷ 0xf636431490f2e093
    ∷ 0x8106b2a61d334bb9 ∷ 0x39c381670a4df988 ∷ 0xc455f3776b59bcb0 ∷ 0x7c90c0b67c270e81
    ∷ 0x2a34101270daeae4 ∷ 0x92f123d367a458d5 ∷ 0x6f6751c306b01ded ∷ 0xd7a2620211ceafdc
    ∷ 0xa09293b09c0f04f6 ∷ 0x1857a0718b71b6c7 ∷ 0xe5c1d261ea65f3ff ∷ 0x5d04e1a0fd1b41ce
    ∷ 0xced8f773f76f0609 ∷ 0x761dc4b2e011b438 ∷ 0x8b8bb6a28105f100 ∷ 0x334e8563967b4331
    ∷ 0x447e74d11bbae81b ∷ 0xfcbb47100cc45a2a ∷ 0x012d35006dd01f12 ∷ 0xb9e806c17aaead23
    ∷ 0xef4cd66576534946 ∷ 0x5789e5a4612dfb77 ∷ 0xaa1f97b40039be4f ∷ 0x12daa47517470c7e
    ∷ 0x65ea55c79a86a754 ∷ 0xdd2f66068df81565 ∷ 0x20b91416ecec505d ∷ 0x987c27d7fb92e26c
    ∷ 0x8df0b55ef5179897 ∷ 0x3535869fe2692aa6 ∷ 0xc8a3f48f837d6f9e ∷ 0x7066c74e9403ddaf
    ∷ 0x075636fc19c27685 ∷ 0xbf93053d0ebcc4b4 ∷ 0x4205772d6fa8818c ∷ 0xfac044ec78d633bd
    ∷ 0xac649448742bd7d8 ∷ 0x14a1a789635565e9 ∷ 0xe937d599024120d1 ∷ 0x51f2e658153f92e0
    ∷ 0x26c217ea98fe39ca ∷ 0x9e07242b8f808bfb ∷ 0x6391563bee94cec3 ∷ 0xdb5465faf9ea7cf2 ∷ []

-- The entries from 1 * 256.
unfoldable pub mu32_row1 : List ℕ
mu32_row1 =
    0x0000000000000000 ∷ 0xf6f734b768e04748 ∷ 0xd9374f3d89571dfb ∷ 0x2fc07b8ae1b75ab3
    ∷ 0x86b7b8284a39a89d ∷ 0x70408c9f22d9efd5 ∷ 0x5f80f715c36eb566 ∷ 0xa977c3a2ab8ef22e
    ∷ 0x39b65603cce4c251 ∷ 0xcf4162b4a4048519 ∷ 0xe081193e45b3dfaa ∷ 0x16762d892d5398e2
    ∷ 0xbf01ee2b86dd6acc ∷ 0x49f6da9cee3d2d84 ∷ 0x6636a1160f8a7737 ∷ 0x90c195a1676a307f
    ∷ 0x736cac0799c984a2 ∷ 0x859b98b0f129c3ea ∷ 0xaa5be33a109e9959 ∷ 0x5cacd78d787ede11
    ∷ 0xf5db142fd3f02c3f ∷ 0x032c2098bb106b77 ∷ 0x2cec5b125aa731c4 ∷ 0xda1b6fa53247768c
    ∷ 0x4adafa04552d46f3 ∷ 0xbc2dceb33dcd01bb ∷ 0x93edb539dc7a5b08 ∷ 0x651a818eb49a1c40
    ∷ 0xcc6d422c1f14ee6e ∷ 0x3a9a769b77f4a926 ∷ 0x155a0d119643f395 ∷ 0xe3ad39a6fea3b4dd
    ∷ 0xe6d9580f33930944 ∷ 0x102e6cb85b734e0c ∷ 0x3fee1732bac414bf ∷ 0xc9192385d22453f7
    ∷ 0x606ee02779aaa1d9 ∷ 0x9699d490114ae691 ∷ 0xb959af1af0fdbc22 ∷ 0x4fae9bad981dfb6a
    ∷ 0xdf6f0e0cff77cb15 ∷ 0x29983abb97978c5d ∷ 0x065841317620d6ee ∷ 0xf0af75861ec091a6
    ∷ 0x59d8b624b54e6388 ∷ 0xaf2f8293ddae24c0 ∷ 0x80eff9193c197e73 ∷ 0x7618cdae54f9393b
    ∷ 0x95b5f408aa5a8de6 ∷ 0x6342c0bfc2bacaae ∷ 0x4c82bb35230d901d ∷ 0xba758f824bedd755
    ∷ 0x13024c20e063257b ∷ 0xe5f5789788836233 ∷ 0xca35031d69343880 ∷ 0x3cc237aa01d47fc8
    ∷ 0xac03a20b66be4fb7 ∷ 0x5af496bc0e5e08ff ∷ 0x7534ed36efe9524c ∷ 0x83c3d98187091504
    ∷ 0x2ab41a232c87e72a ∷ 0xdc432e944467a062 ∷ 0xf383551ea5d0fad1 ∷ 0x057461a9cd30bd99
    ∷ 0xf96b964d3fb181e3 ∷ 0x0f9ca2fa5751c6ab ∷ 0x205cd970b6e69c18 ∷ 0xd6abedc7de06db50
    ∷ 0x7fdc2e657588297e ∷ 0x892b1ad21d686e36 ∷ 0xa6eb6158fcdf3485 ∷ 0x501c55ef943f73cd
    ∷ 0xc0ddc04ef35543b2 ∷ 0x362af4f99bb504fa ∷ 0x19ea8f737a025e49 ∷ 0xef1dbbc412e21901
    ∷ 0x466a7866b96ceb2f ∷ 0xb09d4cd1d18cac67 ∷ 0x9f5d375b303bf6d4 ∷ 0x69aa03ec58dbb19c
    ∷ 0x8a073a4aa6780541 ∷ 0x7cf00efdce984209 ∷ 0x533075772f2f18ba ∷ 0xa5c741c047cf5ff2
    ∷ 0x0cb08262ec41addc ∷ 0xfa47b6d584a1ea94 ∷ 0xd587cd5f6516b027 ∷ 0x2370f9e80df6f76f
    ∷ 0xb3b16c496a9cc710 ∷ 0x454658fe027c8058 ∷ 0x6a862374e3cbdaeb ∷ 0x9c7117c38b2b9da3
    ∷ 0x3506d46120a56f8d ∷ 0xc3f1e0d6484528c5 ∷ 0xec319b5ca9f27276 ∷ 0x1ac6afebc112353e
    ∷ 0x1fb2ce420c2288a7 ∷ 0xe945faf564c2cfef ∷ 0xc685817f8575955c ∷ 0x3072b5c8ed95d214
    ∷ 0x9905766a461b203a ∷ 0x6ff242dd2efb6772 ∷ 0x40323957cf4c3dc1 ∷ 0xb6c50de0a7ac7a89
    ∷ 0x26049841c0c64af6 ∷ 0xd0f3acf6a8260dbe ∷ 0xff33d77c4991570d ∷ 0x09c4e3cb21711045
    ∷ 0xa0b320698affe26b ∷ 0x564414dee21fa523 ∷ 0x79846f5403a8ff90 ∷ 0x8f735be36b48b8d8
    ∷ 0x6cde624595eb0c05 ∷ 0x9a2956f2fd0b4b4d ∷ 0xb5e92d781cbc11fe ∷ 0x431e19cf745c56b6
    ∷ 0xea69da6ddfd2a498 ∷ 0x1c9eeedab732e3d0 ∷ 0x335e95505685b963 ∷ 0xc5a9a1e73e65fe2b
    ∷ 0x55683446590fce54 ∷ 0xa39f00f131ef891c ∷ 0x8c5f7b7bd058d3af ∷ 0x7aa84fccb8b894e7
    ∷ 0xd3df8c6e133666c9 ∷ 0x2528b8d97bd62181 ∷ 0x0ae8c3539a617b32 ∷ 0xfc1ff7e4f2813c7a
    ∷ 0xc60e0ac927f490ad ∷ 0x30f93e7e4f14d7e5 ∷ 0x1f3945f4aea38d56 ∷ 0xe9ce7143c643ca1e
    ∷ 0x40b9b2e16dcd3830 ∷ 0xb64e8656052d7f78 ∷ 0x998efddce49a25cb ∷ 0x6f79c96b8c7a6283
    ∷ 0xffb85ccaeb1052fc ∷ 0x094f687d83f015b4 ∷ 0x268f13f762474f07 ∷ 0xd07827400aa7084f
    ∷ 0x790fe4e2a129fa61 ∷ 0x8ff8d055c9c9bd29 ∷ 0xa038abdf287ee79a ∷ 0x56cf9f68409ea0d2
    ∷ 0xb562a6cebe3d140f ∷ 0x43959279d6dd5347 ∷ 0x6c55e9f3376a09f4 ∷ 0x9aa2dd445f8a4ebc
    ∷ 0x33d51ee6f404bc92 ∷ 0xc5222a519ce4fbda ∷ 0xeae251db7d53a169 ∷ 0x1c15656c15b3e621
    ∷ 0x8cd4f0cd72d9d65e ∷ 0x7a23c47a1a399116 ∷ 0x55e3bff0fb8ecba5 ∷ 0xa3148b47936e8ced
    ∷ 0x0a6348e538e07ec3 ∷ 0xfc947c525000398b ∷ 0xd35407d8b1b76338 ∷ 0x25a3336fd9572470
    ∷ 0x20d752c6146799e9 ∷ 0xd62066717c87dea1 ∷ 0xf9e01dfb9d308412 ∷ 0x0f17294cf5d0c35a
    ∷ 0xa660eaee5e5e3174 ∷ 0x5097de5936be763c ∷ 0x7f57a5d3d7092c8f ∷ 0x89a09164bfe96bc7
    ∷ 0x196104c5d8835bb8 ∷ 0xef963072b0631cf0 ∷ 0xc0564bf851d44643 ∷ 0x36a17f4f3934010b
    ∷ 0x9fd6bced92baf325 ∷ 0x6921885afa5ab46d ∷ 0x46e1f3d01bedeede ∷ 0xb016c767730da996
    ∷ 0x53bbfec18dae1d4b ∷ 0xa54cca76e54e5a03 ∷ 0x8a8cb1fc04f900b0 ∷ 0x7c7b854b6c1947f8
    ∷ 0xd50c46e9c797b5d6 ∷ 0x23fb725eaf77f29e ∷ 0x0c3b09d44ec0a82d ∷ 0xfacc3d632620ef65
    ∷ 0x6a0da8c2414adf1a ∷ 0x9cfa9c7529aa9852 ∷ 0xb33ae7ffc81dc2e1 ∷ 0x45cdd348a0fd85a9
    ∷ 0xecba10ea0b737787 ∷ 0x1a4d245d639330cf ∷ 0x358d5fd782246a7c ∷ 0xc37a6b60eac42d34
    ∷ 0x3f659c841845114e ∷ 0xc992a83370a55606 ∷ 0xe652d3b991120cb5 ∷ 0x10a5e70ef9f24bfd
    ∷ 0xb9d224ac527cb9d3 ∷ 0x4f25101b3a9cfe9b ∷ 0x60e56b91db2ba428 ∷ 0x96125f26b3cbe360
    ∷ 0x06d3ca87d4a1d31f ∷ 0xf024fe30bc419457 ∷ 0xdfe485ba5df6cee4 ∷ 0x2913b10d351689ac
    ∷ 0x806472af9e987b82 ∷ 0x76934618f6783cca ∷ 0x59533d9217cf6679 ∷ 0xafa409257f2f2131
    ∷ 0x4c093083818c95ec ∷ 0xbafe0434e96cd2a4 ∷ 0x953e7fbe08db8817 ∷ 0x63c94b09603bcf5f
    ∷ 0xcabe88abcbb53d71 ∷ 0x3c49bc1ca3557a39 ∷ 0x1389c79642e2208a ∷ 0xe57ef3212a0267c2
    ∷ 0x75bf66804d6857bd ∷ 0x83485237258810f5 ∷ 0xac8829bdc43f4a46 ∷ 0x5a7f1d0aacdf0d0e
    ∷ 0xf308dea80751ff20 ∷ 0x05ffea1f6fb1b868 ∷ 0x2a3f91958e06e2db ∷ 0xdcc8a522e6e6a593
    ∷ 0xd9bcc48b2bd6180a ∷ 0x2f4bf03c43365f42 ∷ 0x008b8bb6a28105f1 ∷ 0xf67cbf01ca6142b9
    ∷ 0x5f0b7ca361efb097 ∷ 0xa9fc4814090ff7df ∷ 0x863c339ee8b8ad6c ∷ 0x70cb07298058ea24
    ∷ 0xe00a9288e732da5b ∷ 0x16fda63f8fd29d13 ∷ 0x393dddb56e65c7a0 ∷ 0xcfcae902068580e8
    ∷ 0x66bd2aa0ad0b72c6 ∷ 0x904a1e17c5eb358e ∷ 0xbf8a659d245c6f3d ∷ 0x497d512a4cbc2875
    ∷ 0xaad0688cb21f9ca8 ∷ 0x5c275c3bdaffdbe0 ∷ 0x73e727b13b488153 ∷ 0x8510130653a8c61b
    ∷ 0x2c67d0a4f8263435 ∷ 0xda90e41390c6737d ∷ 0xf5509f99717129ce ∷ 0x03a7ab2e19916e86
    ∷ 0x93663e8f7efb5ef9 ∷ 0x65910a38161b19b1 ∷ 0x4a5171b2f7ac4302 ∷ 0xbca645059f4c044a
    ∷ 0x15d186a734c2f664 ∷ 0xe326b2105c22b12c ∷ 0xcce6c99abd95eb9f ∷ 0x3a11fd2dd575acd7 ∷ []
